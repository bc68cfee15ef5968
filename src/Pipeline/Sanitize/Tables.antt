-- ===== src/Pipeline/Sanitize/Tables.antt =====
-- The tags and attributes that a preview may show (spamallam/app/pipeline/sanitize.py).
use spamallam.Prelude.{List, [], ◌∷◌, Text, Map, codes}

-- _DROP_TREE. Dropped with everything inside.
abbrev pub drop_tree : List Text
drop_tree =
    codes "script"
    ∷ codes "style"
    ∷ codes "head"
    ∷ codes "title"
    ∷ codes "noscript"
    ∷ codes "template"
    ∷ codes "iframe"
    ∷ codes "frame"
    ∷ codes "frameset"
    ∷ codes "object"
    ∷ codes "embed"
    ∷ codes "applet"
    ∷ codes "form"
    ∷ codes "svg"
    ∷ codes "math"
    ∷ codes "canvas"
    ∷ codes "audio"
    ∷ codes "video"
    ∷ codes "map"
    ∷ codes "area"
    ∷ []

-- _DROP_VOID. Dropped, with no end tag.
abbrev pub drop_void : List Text
drop_void =
    codes "link" ∷ codes "meta" ∷ codes "base" ∷ codes "param" ∷ codes "source" ∷ codes "track" ∷ []

-- _ALLOWED_TAGS. The tags that are passed on.
abbrev pub allowed_tags : List Text
allowed_tags =
    codes "a"
    ∷ codes "abbr"
    ∷ codes "acronym"
    ∷ codes "address"
    ∷ codes "article"
    ∷ codes "aside"
    ∷ codes "b"
    ∷ codes "big"
    ∷ codes "blockquote"
    ∷ codes "br"
    ∷ codes "caption"
    ∷ codes "center"
    ∷ codes "cite"
    ∷ codes "code"
    ∷ codes "col"
    ∷ codes "colgroup"
    ∷ codes "dd"
    ∷ codes "del"
    ∷ codes "dfn"
    ∷ codes "div"
    ∷ codes "dl"
    ∷ codes "dt"
    ∷ codes "em"
    ∷ codes "fieldset"
    ∷ codes "figcaption"
    ∷ codes "figure"
    ∷ codes "font"
    ∷ codes "footer"
    ∷ codes "h1"
    ∷ codes "h2"
    ∷ codes "h3"
    ∷ codes "h4"
    ∷ codes "h5"
    ∷ codes "h6"
    ∷ codes "header"
    ∷ codes "hr"
    ∷ codes "i"
    ∷ codes "img"
    ∷ codes "ins"
    ∷ codes "kbd"
    ∷ codes "label"
    ∷ codes "legend"
    ∷ codes "li"
    ∷ codes "main"
    ∷ codes "mark"
    ∷ codes "nav"
    ∷ codes "ol"
    ∷ codes "p"
    ∷ codes "pre"
    ∷ codes "q"
    ∷ codes "s"
    ∷ codes "samp"
    ∷ codes "section"
    ∷ codes "small"
    ∷ codes "span"
    ∷ codes "strike"
    ∷ codes "strong"
    ∷ codes "sub"
    ∷ codes "sup"
    ∷ codes "table"
    ∷ codes "tbody"
    ∷ codes "td"
    ∷ codes "tfoot"
    ∷ codes "th"
    ∷ codes "thead"
    ∷ codes "time"
    ∷ codes "tr"
    ∷ codes "tt"
    ∷ codes "u"
    ∷ codes "ul"
    ∷ codes "var"
    ∷ codes "wbr"
    ∷ []

-- _VOID_TAGS.
abbrev pub void_tags : List Text
void_tags = codes "br" ∷ codes "hr" ∷ codes "img" ∷ codes "col" ∷ codes "wbr" ∷ []

-- _GLOBAL_ATTRS.
abbrev pub global_attrs : List Text
global_attrs =
    codes "dir"
    ∷ codes "lang"
    ∷ codes "title"
    ∷ codes "align"
    ∷ codes "class"
    ∷ codes "id"
    ∷ codes "colspan"
    ∷ codes "rowspan"
    ∷ []

-- _URL_ATTRS.
abbrev pub url_attrs : List Text
url_attrs =
    codes "href"
    ∷ codes "src"
    ∷ codes "cite"
    ∷ codes "action"
    ∷ codes "background"
    ∷ codes "longdesc"
    ∷ []

-- _DROP_ATTRS. Never passed on, whatever the tag.
abbrev pub drop_attrs : List Text
drop_attrs =
    codes "style"
    ∷ codes "srcset"
    ∷ codes "background"
    ∷ codes "ping"
    ∷ codes "formaction"
    ∷ codes "dynsrc"
    ∷ codes "lowsrc"
    ∷ codes "data"
    ∷ codes "usemap"
    ∷ codes "sizes"
    ∷ []

-- _ATTRS
abbrev pub tag_attrs : Map (List Text)
tag_attrs =
    (codes "a", codes "href" ∷ codes "name" ∷ codes "title" ∷ [])
    ∷ (codes "img", codes "src" ∷ codes "alt" ∷ codes "width" ∷ codes "height" ∷ codes "title" ∷ [])
    ∷ (codes "font", codes "color" ∷ codes "face" ∷ codes "size" ∷ [])
    ∷ (
      codes "td",
      codes "colspan"
          ∷ codes "rowspan"
          ∷ codes "align"
          ∷ codes "valign"
          ∷ codes "width"
          ∷ codes "height"
          ∷ codes "nowrap"
          ∷ codes "bgcolor"
          ∷ [],
    )
    ∷ (
      codes "th",
      codes "colspan"
          ∷ codes "rowspan"
          ∷ codes "align"
          ∷ codes "valign"
          ∷ codes "width"
          ∷ codes "height"
          ∷ codes "nowrap"
          ∷ codes "bgcolor"
          ∷ [],
    )
    ∷ (
      codes "table",
      codes "border"
          ∷ codes "cellpadding"
          ∷ codes "cellspacing"
          ∷ codes "width"
          ∷ codes "align"
          ∷ codes "bgcolor"
          ∷ codes "summary"
          ∷ [],
    )
    ∷ (codes "col", codes "span" ∷ codes "width" ∷ codes "align" ∷ [])
    ∷ (codes "colgroup", codes "span" ∷ codes "width" ∷ codes "align" ∷ [])
    ∷ (codes "tr", codes "align" ∷ codes "valign" ∷ codes "bgcolor" ∷ [])
    ∷ (codes "tbody", codes "align" ∷ codes "valign" ∷ [])
    ∷ (codes "thead", codes "align" ∷ codes "valign" ∷ [])
    ∷ (codes "tfoot", codes "align" ∷ codes "valign" ∷ [])
    ∷ (codes "ol", codes "start" ∷ codes "type" ∷ [])
    ∷ []
