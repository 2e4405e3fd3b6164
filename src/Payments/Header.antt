-- ===== src/Payments/Header.antt =====
-- The header that a sender of Stripe's form writes is read back
-- (src/webhooks/stripe-signature.util.ts).
use idea_project.Base.{
  ℕ, ◌≡◌, ◌≢◌, ◌≤◌, ◌+◌, ◌*◌, ◌↔◌, refl, Bool, true, false, nat_eq, nat_beq, any, some, [], ◌∷◌,
  ◌++◌, arith,
}
use idea_project.Payments.Signature.{
  Text, Crypto, split, to_entry, verify_stripe_signature, check_signature, text_beq, signed_payload,
  buffers_equal, is_out_of_tolerance,
}

-- `t=<timestamp>,v1=<signature>`
abbrev pub stripe_header : Text → Text → Text
stripe_header timestamp signature = b't' ∷ b'=' ∷ timestamp ++ b',' ∷ b'v' ∷ b'1' ∷ b'=' ∷ signature

abbrev pub is_char : ℕ → ℕ → Bool
is_char c d = nat_beq d c

split-plain : (sep : ℕ) (t : Text) → any (is_char sep) t ≡ false → split sep t ≡ t ∷ []
unfolding split
split-plain sep [] h = refl
split-plain sep (c ∷ t) h = ground (arith, split-plain sep t)

split-append :
    (sep : ℕ) (t rest : Text)
    → any (is_char sep) t ≡ false
    → split sep (t ++ sep ∷ rest) ≡ t ∷ split sep rest
unfolding split
split-append sep [] rest h = ground arith
split-append sep (c ∷ t) rest h = ground (arith, split-append sep t rest)

-- A part `key=value` is read as its key and its value.
to_entry-pair :
    (key value : Text)
    → any (is_char b'=') key ≡ false
    → any (is_char b'=') value ≡ false
    → to_entry (key ++ b'=' ∷ value) ≡ (key, some value)
unfolding to_entry
to_entry-pair key value h e = rw (split-append b'=' key value h, split-plain b'=' value e) refl

text_beq-same : (a : Text) → text_beq a a ≡ true
text_beq-same [] = refl
text_beq-same (x ∷ xs) = ground (arith, text_beq-same xs)

text_beq-equal : (a b : Text) → text_beq a b ≡ true → a ≡ b
text_beq-equal [] [] h = refl
text_beq-equal [] (y ∷ ys) h = absurd (ground arith)
text_beq-equal (x ∷ xs) [] h = absurd (ground arith)
text_beq-equal (x ∷ xs) (y ∷ ys) h = ground (arith, text_beq-equal xs ys)

module _ (crypto : Crypto) where
  -- The code's check of a header, taken apart and put together again.
  header_check :
      (raw_body timestamp signature secret : Text) (now : ℕ)
      → any (is_char b'=') timestamp ≡ false
      → any (is_char b',') timestamp ≡ false
      → any (is_char b'=') signature ≡ false
      → any (is_char b',') signature ≡ false
      → timestamp ≢ []
      → signature ≢ []
      → verify_stripe_signature crypto raw_body (stripe_header timestamp signature) secret now
        ≡ check_signature crypto raw_body timestamp signature secret now
  unfolding verify_stripe_signature
  header_check raw_body [] signature secret now te tc se sc tn sn = absurd (tn refl)
  header_check raw_body (c ∷ t) [] secret now te tc se sc tn sn = absurd (sn refl)
  header_check raw_body (c ∷ t) (d ∷ g) secret now te tc se sc tn sn =
      let parts = split-append b',' (b't' ∷ b'=' ∷ c ∷ t) (b'v' ∷ b'1' ∷ b'=' ∷ d ∷ g) tc in
      let part = split-plain b',' (b'v' ∷ b'1' ∷ b'=' ∷ d ∷ g) sc in
      let first = to_entry-pair (b't' ∷ []) (c ∷ t) refl te in
      let second = to_entry-pair (b'v' ∷ b'1' ∷ []) (d ∷ g) refl se in
      rw (parts, part, first, second) refl

  -- A check passes exactly in time and with the bytes of the right digest.
  check_signature-passes :
      (raw_body timestamp signature secret : Text) (now t : ℕ)
      → crypto.number timestamp ≡ some t
      → (check_signature crypto raw_body timestamp signature secret now ≡ true) ↔ (
          (t * 1000 ≤ now + 300000)
          × (now ≤ t * 1000 + 300000)
          × (crypto.from_hex (crypto.hmac_hex secret (timestamp ++ b'.' ∷ raw_body))
              ≡ crypto.from_hex signature))
  unfolding check_signature signed_payload buffers_equal is_out_of_tolerance
  check_signature-passes raw_body timestamp signature secret now t e =
      let right = crypto.from_hex (crypto.hmac_hex secret (timestamp ++ b'.' ∷ raw_body)) in
      let sent = crypto.from_hex signature in
      (
        λ h. (ground arith, ground arith, text_beq-equal right sent (ground arith)),
        λ h. rw h.2 (ground (arith, h.0, h.1, text_beq-same sent)),
      )

  -- A header with a timestamp and a signature that are not empty and hold neither a comma nor an
  -- equals sign, where the timestamp is a number of seconds, is accepted exactly when that time is at
  -- most 300 seconds from now, before or after, and the signature has the bytes of the digest of the
  -- timestamp, a point and the body under the secret.
  pub stripe_header-verify :
      (raw_body timestamp signature secret : Text) (now t : ℕ)
      → any (is_char b'=') timestamp ≡ false
      → any (is_char b',') timestamp ≡ false
      → any (is_char b'=') signature ≡ false
      → any (is_char b',') signature ≡ false
      → timestamp ≢ []
      → signature ≢ []
      → crypto.number timestamp ≡ some t
      → (verify_stripe_signature crypto raw_body (stripe_header timestamp signature) secret now
          ≡ true)
        ↔ ((t * 1000 ≤ now + 300000)
            × (now ≤ t * 1000 + 300000)
            × (crypto.from_hex (crypto.hmac_hex secret (timestamp ++ b'.' ∷ raw_body))
                ≡ crypto.from_hex signature))
  stripe_header-verify raw_body timestamp signature secret now t te tc se sc tn sn e =
      rw (header_check raw_body timestamp signature secret now te tc se sc tn sn)
        (check_signature-passes raw_body timestamp signature secret now t e)
