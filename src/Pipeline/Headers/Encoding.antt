-- ===== src/Pipeline/Headers/Encoding.antt =====
-- When headers can be encoded (spamallam/app/pipeline/headers.py): a lone surrogate is all that
-- `encode` refuses.
use spamallam.Prelude.{
  ℕ, String, ◌≡◌, refl, Bool, true, false, not, some, List, [], ◌∷◌, ◌++◌, all, is_empty, All,
  All-append, Text, Bytes, codes, lower, upper, join, print_nat, print_fixed2, is_surrogate,
  HasNoSurrogate, encode-some,
}
use spamallam.Pipeline.Headers.Message.{split_message, newline_style}
use spamallam.Pipeline.Headers.Verdict.{
  SpamallamVerdict, clamp_confidence, canonical_text, canonical, fold, Header, optional,
  header_line, header_block, prepend_headers, detail_headers, Signer, sign, build_spamallam_headers,
}
use spamallam.Pipeline.Headers.Surrogates.{
  HasNoSurrogate-of_test, HasNoSurrogate-upper, HasNoSurrogate-lower, HasNoSurrogate-fold,
  HasNoSurrogate-join, HasNoSurrogate-print_nat, HasNoSurrogate-print_fixed2,
}

abbrev pub HasCleanHeaders : List Header → Type 0
HasCleanHeaders = All (λ (h : Header). HasNoSurrogate h.0 × HasNoSurrogate h.1)

HasNoSurrogate-header_line :
    (h : Header) → HasNoSurrogate h.0 → HasNoSurrogate h.1 → HasNoSurrogate (header_line h)
HasNoSurrogate-header_line (k, v) a b =
    All-append _ (k ++ codes ": ") _ (All-append _ k _ a (refl, (refl, tt))) b

header_block-some :
    (newline : Bytes) (hs : List Header)
    → HasCleanHeaders hs
    → (b : Bytes) × (header_block newline hs ≡ some b)
unfolding header_block
header_block-some newline [] h = ([], refl)
header_block-some newline (x ∷ []) ((a, b), h) =
    encode-some (header_line x) (HasNoSurrogate-header_line x a b)
header_block-some newline (x ∷ y ∷ more) ((a, b), h) =
    let (line, e) = encode-some (header_line x) (HasNoSurrogate-header_line x a b) in
    let (rest, f) = header_block-some newline (y ∷ more) h in (line ++ newline ++ rest, simp (e, f))

-- Headers with no lone surrogate can be put before any message.
pub prepend_headers-some :
    (raw : Bytes) (hs : List Header)
    → HasCleanHeaders hs
    → (b : Bytes) × (prepend_headers raw hs ≡ some b)
unfolding prepend_headers
prepend_headers-some raw hs h =
    let (head, rest) = split_message raw in
    let newline = newline_style head rest in
    let (block, e) = header_block-some newline hs h in (block ++ newline ++ raw, simp e)

-- No text of the verdict has a lone surrogate.
pub record IsEncodable (v : SpamallamVerdict) : Type 0 where
  pub verdict : HasNoSurrogate v.verdict
  pub category : HasNoSurrogate v.category
  pub reason : HasNoSurrogate v.reason
  pub model : HasNoSurrogate v.model
  pub tools_used : All HasNoSurrogate v.tools_used
  pub whitelisted : HasNoSurrogate v.whitelisted
  pub labels : All HasNoSurrogate v.labels

HasCleanHeaders-optional :
    (present : Bool) (name : String) (value : Text) (more : List Header)
    → all (λ c. not (is_surrogate c)) (codes name) ≡ true
    → HasNoSurrogate value
    → HasCleanHeaders more
    → HasCleanHeaders (optional present name value more)
HasCleanHeaders-optional true name value more a b h =
    ((HasNoSurrogate-of_test (codes name) a, b), h)
HasCleanHeaders-optional false name value more a b h = h

module _ (v : SpamallamVerdict) (ok : IsEncodable v) where
  HasCleanHeaders-detail_headers :
      (more : List Header) → HasCleanHeaders more → HasCleanHeaders (detail_headers v more)
  unfolding detail_headers
  HasCleanHeaders-detail_headers more h =
      let comma : HasNoSurrogate (codes ", ") = (refl, (refl, tt)) in
      let from_labels : List Header =
        optional (not (is_empty v.labels)) "X-SpamAllam-Labels" (fold (join (codes ", ") v.labels))
          more in
      let clean_labels : HasCleanHeaders from_labels =
        HasCleanHeaders-optional (not (is_empty v.labels)) "X-SpamAllam-Labels"
          (fold (join (codes ", ") v.labels)) more refl
          (HasNoSurrogate-fold _ (HasNoSurrogate-join (codes ", ") v.labels comma ok.labels)) h in
      let from_whitelisted : List Header =
        optional (not (is_empty v.whitelisted)) "X-SpamAllam-Whitelisted" (fold v.whitelisted)
          from_labels in
      let clean_whitelisted : HasCleanHeaders from_whitelisted =
        HasCleanHeaders-optional (not (is_empty v.whitelisted)) "X-SpamAllam-Whitelisted"
          (fold v.whitelisted) from_labels refl (HasNoSurrogate-fold _ ok.whitelisted)
          clean_labels in
      let from_tools_used : List Header =
        optional (not (is_empty v.tools_used)) "X-SpamAllam-Tools"
          (fold (join (codes ", ") v.tools_used)) from_whitelisted in
      let clean_tools_used : HasCleanHeaders from_tools_used =
        HasCleanHeaders-optional (not (is_empty v.tools_used)) "X-SpamAllam-Tools"
          (fold (join (codes ", ") v.tools_used)) from_whitelisted refl
          (HasNoSurrogate-fold _
            (HasNoSurrogate-join (codes ", ") v.tools_used comma ok.tools_used))
          clean_whitelisted in
      let from_model : List Header =
        optional (not (is_empty v.model)) "X-SpamAllam-Model" (fold v.model) from_tools_used in
      let clean_model : HasCleanHeaders from_model =
        HasCleanHeaders-optional (not (is_empty v.model)) "X-SpamAllam-Model" (fold v.model)
          from_tools_used refl (HasNoSurrogate-fold _ ok.model) clean_tools_used in
      let from_reason : List Header =
        optional (not (is_empty v.reason)) "X-SpamAllam-Reason" (fold v.reason) from_model in
      let clean_reason : HasCleanHeaders from_reason =
        HasCleanHeaders-optional (not (is_empty v.reason)) "X-SpamAllam-Reason" (fold v.reason)
          from_model refl (HasNoSurrogate-fold _ ok.reason) clean_model in
      HasCleanHeaders-optional (not (is_empty v.category)) "X-SpamAllam-Category" (fold v.category)
        from_reason refl (HasNoSurrogate-fold _ ok.category) clean_reason

  HasNoSurrogate-canonical_text : (ts : ℕ) → HasNoSurrogate (canonical_text v ts)
  unfolding canonical_text
  HasNoSurrogate-canonical_text ts =
      HasNoSurrogate-join (codes "\n")
        (codes "v1"
          ∷ print_nat ts
          ∷ upper v.verdict
          ∷ print_fixed2 (clamp_confidence v.confidence)
          ∷ v.category
          ∷ lower v.whitelisted
          ∷ [])
        (refl, tt)
        (
          (refl, (refl, tt)),
          (
            HasNoSurrogate-print_nat ts,
            (
              HasNoSurrogate-upper _ ok.verdict,
              (
                HasNoSurrogate-print_fixed2 (clamp_confidence v.confidence),
                (ok.category, (HasNoSurrogate-lower _ ok.whitelisted, tt)),
              ),
            ),
          ),
        )

  -- The headers of a verdict with no lone surrogate can be built, and can be encoded.
  pub build_spamallam_headers-some :
      (signer : Signer)
      → ((key message : Bytes) → HasNoSurrogate (signer.hmac_hex key message))
      → (hs : List Header) × (build_spamallam_headers signer v ≡ some hs) × HasCleanHeaders hs
  unfolding build_spamallam_headers sign canonical
  build_spamallam_headers-some signer hex =
      let (message, e) =
        encode-some (canonical_text v signer.now) (HasNoSurrogate-canonical_text signer.now) in
      let signature =
        codes "v=1; ts="
        ++ print_nat signer.now
        ++ codes "; sig="
        ++ signer.hmac_hex signer.key message in
      let a : HasNoSurrogate signature =
        All-append _ (codes "v=1; ts=" ++ print_nat signer.now ++ codes "; sig=") _
          (All-append _ (codes "v=1; ts=" ++ print_nat signer.now) _
            (All-append _ (codes "v=1; ts=") _ (HasNoSurrogate-of_test (codes "v=1; ts=") refl)
              (HasNoSurrogate-print_nat signer.now))
            (HasNoSurrogate-of_test (codes "; sig=") refl))
          (hex signer.key message) in
      let hs : List Header =
        (codes "X-SpamAllam-Verdict", upper v.verdict)
        ∷ (codes "X-SpamAllam-Confidence", print_fixed2 (clamp_confidence v.confidence))
        ∷ detail_headers v ((codes "X-SpamAllam-Signature", signature) ∷ []) in
      (
        hs,
        simp e,
        (
          (
            HasNoSurrogate-of_test (codes "X-SpamAllam-Verdict") refl,
            HasNoSurrogate-upper _ ok.verdict,
          ),
          (
            (
              HasNoSurrogate-of_test (codes "X-SpamAllam-Confidence") refl,
              HasNoSurrogate-print_fixed2 (clamp_confidence v.confidence),
            ),
            HasCleanHeaders-detail_headers ((codes "X-SpamAllam-Signature", signature) ∷ [])
                ((HasNoSurrogate-of_test (codes "X-SpamAllam-Signature") refl, a), tt),
          ),
        ),
      )
