-- ===== src/Auth/Payload.antt =====
-- What a signature binds: the signed text determines the signed fields.
use raag.Prelude.{◌≡◌, ◌≢◌, Str, [], ◌∷◌, ◌++◌, arith, All}
use raag.Prelude.Int.{ℤ}
use raag.Auth.{AuthToken, Crypto, payload}

-- No colon in a text.
abbrev pub IsPlain : Str → Type 0
IsPlain = All (λ c. c ≢ b':')

-- Texts without colons in front of a colon can be told apart.
split_plain :
    (s t r q : Str) → IsPlain s → IsPlain t → s ++ (b':' ∷ r) ≡ t ++ (b':' ∷ q) → (s ≡ t) × (r ≡ q)
split_plain [] [] r q hs ht e = ground arith
split_plain [] (c ∷ t) r q hs ht e = ground arith
split_plain (c ∷ s) [] r q hs ht e = ground arith
split_plain (c ∷ s) (d ∷ t) r q hs ht e = ground (arith, split_plain s t r q hs.1 ht.1)

-- Two tokens with the same signed text agree in every signed field, if their peer ids, their public
-- keys and the decimals of their times hold no colon and decimals are told apart.
pub payload-injective :
    (k : Crypto) (t u : AuthToken)
    → IsPlain t.peer_id × IsPlain u.peer_id
    → IsPlain t.public_key × IsPlain u.public_key
    → ((n : ℤ) → IsPlain (k.decimal n))
    → ((n m : ℤ) → k.decimal n ≡ k.decimal m → n ≡ m)
    → payload k t ≡ payload k u
    → (t.peer_id ≡ u.peer_id)
      × (t.public_key ≡ u.public_key)
      × (t.timestamp ≡ u.timestamp)
      × (t.expires_at ≡ u.expires_at)
      × (t.nonce ≡ u.nonce)
unfolding payload
payload-injective k t u ids keys plain dec e =
    let (i, e₁) = split_plain _ _ _ _ ids.0 ids.1 e in
    let (p, e₂) = split_plain _ _ _ _ keys.0 keys.1 e₁ in
    let (m, e₃) = split_plain _ _ _ _ (plain t.timestamp) (plain u.timestamp) e₂ in
    let (x, n) = split_plain _ _ _ _ (plain t.expires_at) (plain u.expires_at) e₃ in
    (i, p, dec _ _ m, dec _ _ x, n)
