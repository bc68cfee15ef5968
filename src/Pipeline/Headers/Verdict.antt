-- ===== src/Pipeline/Headers/Verdict.antt =====
-- The verdict and the headers that carry it (spamallam/app/pipeline/headers.py): the canonical
-- string and its signature, folding, and prepending to a message.
use spamallam.Prelude.{
  ℕ, String, Bool, false, not, ◌||◌, Option, none, some, List, [], ◌∷◌, ◌++◌, ◌==◌, if◌then◌else◌,
  take, is_empty, Text, Bytes, codes, lower, upper, strip, join, Float, one_float, zero_float,
  float_min, float_max, print_fixed2, print_nat, encode,
}
use spamallam.Pipeline.Headers.Message.{split_message, newline_style}

pub record SpamallamVerdict : Type 0 where
  pub verdict : Text
  pub confidence : Float
  pub category : Text
  pub reason : Text
  pub model : Text
  pub tools_used : List Text
  pub whitelisted : Text
  pub labels : List Text

-- SpamallamVerdict()
abbrev pub skipped : SpamallamVerdict
skipped = record {
  verdict = codes "SKIPPED";
  confidence = zero_float;
  category = [];
  reason = [];
  model = [];
  tools_used = [];
  whitelisted = [];
  labels = [];
}

-- max(0.0, min(1.0, x))
unfoldable pub clamp_confidence : Float → Float
unfolding float_min float_max
clamp_confidence x = float_max zero_float (float_min one_float x)

unfoldable pub canonical_text : SpamallamVerdict → ℕ → Text
canonical_text v ts = join (codes "\n") (
    codes "v1"
    ∷ print_nat ts
    ∷ upper v.verdict
    ∷ print_fixed2 (clamp_confidence v.confidence)
    ∷ v.category
    ∷ lower v.whitelisted
    ∷ [])

-- _canonical(verdict, ts)
unfoldable pub canonical : SpamallamVerdict → ℕ → Option Bytes
unfolding canonical_text encode
canonical v ts = encode (canonical_text v ts)

abbrev pub is_break : ℕ → Bool
is_break c = c == 13 || c == 10

-- `re.sub(r"[\r\n]+", " ", value)`; `inside` holds within a run of breaks.
unfoldable pub join_lines : Bool → Text → Text
join_lines inside [] = []
join_lines inside (c ∷ s) =
    let rest = join_lines (is_break c) s in
    if is_break c then (if inside then rest else 32 ∷ rest) else c ∷ rest

-- _fold(value), at its limit of 900.
unfoldable pub fold : Text → Text
unfolding join_lines
fold value = take 900 (strip (join_lines false value))

abbrev pub Header : Type 0
Header = Text × Text

-- A header that is added only if its value is not empty.
abbrev pub optional : Bool → String → Text → List Header → List Header
optional present name value more = if present then (codes name, value) ∷ more else more

abbrev pub header_line : Header → Text
header_line (k, v) = k ++ codes ": " ++ v

infixl 5 ◌>>=◌
abbrev pub ◌>>=◌ {ℓ κ} : {A : Type ℓ} {B : Type κ} → Option A → (A → Option B) → Option B
none >>= k = none
some a >>= k = k a

-- `newline.join(f"{k}: {v}".encode() for k, v in headers)`
unfoldable pub header_block : Bytes → List Header → Option Bytes
header_block newline [] = some []
header_block newline (h ∷ []) = encode (header_line h)
header_block newline (h ∷ g ∷ more) = do
  line ← encode (header_line h)
  rest ← header_block newline (g ∷ more)
  some (line ++ newline ++ rest)

-- prepend_headers(raw, headers); `none` where `encode` raises.
unfoldable pub prepend_headers : Bytes → List Header → Option Bytes
unfolding header_block split_message newline_style
prepend_headers raw headers =
    let (head, rest) = split_message raw in
    let newline = newline_style head rest in
    do block ← header_block newline headers; some (block ++ newline ++ raw)

-- The headers behind the first two, up to the signature.
unfoldable pub detail_headers : SpamallamVerdict → List Header → List Header
unfolding fold
detail_headers v more =
    optional (not (is_empty v.category)) "X-SpamAllam-Category" (fold v.category) (
      optional (not (is_empty v.reason)) "X-SpamAllam-Reason" (fold v.reason) (
        optional (not (is_empty v.model)) "X-SpamAllam-Model" (fold v.model) (
          optional (not (is_empty v.tools_used)) "X-SpamAllam-Tools"
            (fold (join (codes ", ") v.tools_used))
            (optional (not (is_empty v.whitelisted)) "X-SpamAllam-Whitelisted" (fold v.whitelisted)
              (optional (not (is_empty v.labels)) "X-SpamAllam-Labels"
                (fold (join (codes ", ") v.labels)) more)))))

-- The signing key, the clock, and `hmac.new(key, msg, sha256).hexdigest()`.
pub record Signer : Type 0 where
  pub key : Bytes
  pub now : ℕ
  pub hmac_hex : Bytes → Bytes → Text

module _ (signer : Signer) where
  -- sign(verdict, hmac_key)
  unfoldable pub sign : SpamallamVerdict → Option Text
  unfolding canonical
  sign v = do
    message ← canonical v signer.now
    some (
        codes "v=1; ts="
        ++ print_nat signer.now
        ++ codes "; sig="
        ++ signer.hmac_hex signer.key message)

  -- build_spamallam_headers(verdict, hmac_key)
  unfoldable pub build_spamallam_headers : SpamallamVerdict → Option (List Header)
  unfolding sign detail_headers
  build_spamallam_headers v = do
    signature ← sign v
    some (
        (codes "X-SpamAllam-Verdict", upper v.verdict)
        ∷ (codes "X-SpamAllam-Confidence", print_fixed2 (clamp_confidence v.confidence))
        ∷ detail_headers v ((codes "X-SpamAllam-Signature", signature) ∷ []))
