-- ===== src/Smtp/Forwarding.antt =====
-- What XFORWARD may change (spamallam/app/smtp/server.py).
use spamallam.Prelude.{
  ◌≡◌, refl, ◌⊎◌, inl, inr, Bool-cases, true, Option, none, some, is_some, List, [], ◌∷◌, All, Text,
  text_eq, elem, upper, is_empty, Map, put, codes, words, partition,
}
use spamallam.Smtp.{
  Session, Reply, ok_250, peer_is_trusted, attributes, store_pair, take_pair, take_pairs,
  or_refusal, end_forward, forwarded, smtp_xforward, xtext_decode,
}

-- Every key of the dict is one of the attributes of XFORWARD.
abbrev pub HasKnownKeys : Map Text → Type 0
HasKnownKeys = All (λ entry. elem entry.0 attributes ≡ true)

HasKnownKeys-put :
    (key value : Text) (m : Map Text)
    → elem key attributes ≡ true
    → HasKnownKeys m
    → HasKnownKeys (put key value m)
unfolding put
HasKnownKeys-put key value [] k h = (k, tt)
HasKnownKeys-put key value ((j, w) ∷ m) k (p, h) = elim (Bool-cases (text_eq key j)) [
  | inl e ↦ rw e (p, h)
  | inr e ↦ rw e (p, HasKnownKeys-put key value m k h)
]

HasKnownKeys-store_pair :
    (key value : Text) (m : Map Text)
    → elem key attributes ≡ true
    → HasKnownKeys m
    → HasKnownKeys (store_pair (key, value) m)
HasKnownKeys-store_pair key value m k h =
    elim (Bool-cases (text_eq (upper value) (codes "[UNAVAILABLE]"))) [
      | inl e ↦ rw e h
      | inr e ↦ rw e (HasKnownKeys-put key (xtext_decode value) m k h)
    ]

HasKnownKeys-take_pair :
    (pair : Option (Text × Text)) (m : Map Text)
    → HasKnownKeys m
    → HasKnownKeys (take_pair pair m).1
HasKnownKeys-take_pair none m h = h
HasKnownKeys-take_pair (some (key, value)) m h = elim (Bool-cases (elem (upper key) attributes)) [
  | inl e ↦ rw e (HasKnownKeys-store_pair (upper key) value m e h)
  | inr e ↦ rw e h
]

HasKnownKeys-or_refusal :
    (first rest : Option Reply × Map Text)
    → HasKnownKeys first.1
    → HasKnownKeys rest.1
    → HasKnownKeys (or_refusal first rest).1
HasKnownKeys-or_refusal (none, m) rest h k = k
HasKnownKeys-or_refusal (some refusal, m) rest h k = h

HasKnownKeys-take_pairs :
    (pairs : List Text) (m : Map Text) → HasKnownKeys m → HasKnownKeys (take_pairs pairs m).1
unfolding take_pairs
HasKnownKeys-take_pairs [] m h = h
HasKnownKeys-take_pairs (pair ∷ pairs) m h =
    let t = take_pair (partition 61 pair) m in
    let k = HasKnownKeys-take_pair (partition 61 pair) m h in
    HasKnownKeys-or_refusal t (take_pairs pairs t.1) k (HasKnownKeys-take_pairs pairs t.1 k)

HasKnownKeys-end_forward :
    (session : Session) (r : Option Reply × Map Text)
    → HasKnownKeys (forwarded session)
    → HasKnownKeys r.1
    → HasKnownKeys (forwarded (end_forward session r).0)
HasKnownKeys-end_forward session (none, m) h k = k
HasKnownKeys-end_forward session (some refusal, m) h k =
    elim (Bool-cases (is_some session.xforward)) [ inl e ↦ simp e k | inr e ↦ simp e h ]

-- If what the pipeline is told of the client holds only the known attributes, no command puts
-- anything else into it.
pub smtp_xforward-HasKnownKeys :
    (trusted : List Text) (session : Session) (arg : Text)
    → HasKnownKeys (forwarded session)
    → HasKnownKeys (forwarded (smtp_xforward trusted session arg).0)
unfolding smtp_xforward
smtp_xforward-HasKnownKeys trusted session arg h =
    elim (Bool-cases (peer_is_trusted trusted session)) [
      | inr e ↦ simp e h
      | inl e ↦ elim (Bool-cases (is_empty arg)) [
        | inl f ↦ simp (e, f) h
        | inr f ↦
            simp (e, f)
              (HasKnownKeys-end_forward session (take_pairs (words arg) (forwarded session)) h
                (HasKnownKeys-take_pairs (words arg) (forwarded session) h))
      ]
    ]

end_forward_keeps :
    (session : Session) (r : Option Reply × Map Text)
    → ((end_forward session r).0 ≡ session)
      ⊎ ((end_forward session r).1 ≡ ok_250)
      ⊎ (is_some session.xforward ≡ true)
end_forward_keeps session (none, m) = inr (inl refl)
end_forward_keeps session (some refusal, m) = elim (Bool-cases (is_some session.xforward)) [
  | inl e ↦ inr (inr e)
  | inr e ↦ inl (simp e)
]

-- XFORWARD changes a session only if the peer is a trusted one, and either the whole command is
-- accepted or an earlier command was.
pub smtp_xforward_changes :
    (trusted : List Text) (session : Session) (arg : Text)
    → ((smtp_xforward trusted session arg).0 ≡ session)
      ⊎ ((peer_is_trusted trusted session ≡ true)
          × (((smtp_xforward trusted session arg).1 ≡ ok_250) ⊎ (is_some session.xforward ≡ true)))
unfolding smtp_xforward
smtp_xforward_changes trusted session arg = elim (Bool-cases (peer_is_trusted trusted session)) [
  | inr e ↦ inl (simp e)
  | inl e ↦ elim (Bool-cases (is_empty arg)) [
    | inl f ↦ inl (simp (e, f))
    | inr f ↦ elim (end_forward_keeps session (take_pairs (words arg) (forwarded session))) [
      | inl k ↦ inl (simp (e, f) k)
      | inr k ↦ inr (e, simp (e, f) k)
    ]
  ]
]
