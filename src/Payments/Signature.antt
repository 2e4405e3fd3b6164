-- ===== src/Payments/Signature.antt =====
-- src/webhooks/stripe-signature.util.ts. A text is the list of its character codes. `Number`, the
-- HMAC and the decoding of hexadecimal digits are parameters.
use idea_project.Base.{
  ℕ, ◌*◌, ◌+◌, ◌-◌, Bool, true, false, not, ◌&&◌, ◌||◌, Option, none, some, List, [], ◌∷◌, ◌++◌,
  ◌==◌, nat_eq, nat_beq, if◌then◌else◌, ltb, length, map,
}
pub use idea_project.Base.Texts.{Text}

pub record Crypto : Type 0 where
  -- `Number(text)` in seconds; `none` is `NaN`. Texts of other numbers than naturals are left out.
  pub number : Text → Option ℕ
  -- `createHmac('sha256', secret).update(message).digest('hex')`, by secret and message.
  pub hmac_hex : Text → Text → Text
  -- `Buffer.from(text, 'hex')`
  pub from_hex : Text → List ℕ

abbrev pub text_beq : Text → Text → Bool
text_beq [] [] = true
text_beq [] (y ∷ ys) = false
text_beq (x ∷ xs) [] = false
text_beq (x ∷ xs) (y ∷ ys) = nat_beq x y && text_beq xs ys

-- One more character in front of the first piece.
abbrev push_front : ℕ → List Text → List Text
push_front c [] = (c ∷ []) ∷ []
push_front c (p ∷ ps) = (c ∷ p) ∷ ps

-- `text.split(separator)` for a separator of one character.
unfoldable pub split : ℕ → Text → List Text
split sep [] = [] ∷ []
split sep (c ∷ cs) = if nat_beq c sep then [] ∷ split sep cs else push_front c (split sep cs)

-- `const [key, value] = part.split('=')`, where a missing value is `undefined`.
entry : List Text → Text × Option Text
entry [] = ([], none)
entry (k ∷ []) = (k, none)
entry (k ∷ v ∷ rest) = (k, some v)

unfoldable pub to_entry : Text → Text × Option Text
unfolding split entry
to_entry part = entry (split b'=' part)

abbrev includes_key : Text → List (Text × Option Text) → Bool
includes_key k [] = false
includes_key k ((j, v) ∷ es) = text_beq j k || includes_key k es

-- A property of `Object.fromEntries(entries)`: the last entry with the key counts.
unfoldable pub property : Text → List (Text × Option Text) → Option Text
property k [] = none
property k ((j, v) ∷ es) =
    let later : Option Text = property k es in
    if includes_key k es then later else if text_beq j k then v else none

-- `!value` for a text: missing or empty.
abbrev pub given : Option Text → Option Text
given none = none
given (some []) = none
given (some (c ∷ cs)) = some (c ∷ cs)

abbrev pub tolerance_seconds : ℕ
tolerance_seconds = 5 * 60

-- `Math.abs(Date.now() / 1000 - Number(timestamp)) > TOLERANCE_SECONDS`, in milliseconds. A
-- comparison with `NaN` is false.
unfoldable pub is_out_of_tolerance : ℕ → Option ℕ → Bool
is_out_of_tolerance now none = false
is_out_of_tolerance now (some t) =
    ltb (tolerance_seconds * 1000) ((now - t * 1000) + (t * 1000 - now))

-- `timingSafeEqual`, behind the test of the lengths.
unfoldable pub buffers_equal : List ℕ → List ℕ → Bool
buffers_equal a b = if not (length a == length b) then false else text_beq a b

module _ (crypto : Crypto) where
  -- The text that is signed, `${timestamp}.${rawBody}`.
  unfoldable pub signed_payload : Text → Text → Text
  signed_payload timestamp raw_body = timestamp ++ b'.' ∷ raw_body

  unfoldable pub check_signature : Text → Text → Text → Text → ℕ → Bool
  unfolding is_out_of_tolerance signed_payload buffers_equal
  check_signature raw_body timestamp signature secret now =
      if is_out_of_tolerance now (crypto.number timestamp)
      then false
      else buffers_equal
          (crypto.from_hex (crypto.hmac_hex secret (signed_payload timestamp raw_body)))
          (crypto.from_hex signature)

  check_parts : Text → Option Text → Option Text → Text → ℕ → Bool
  unfolding check_signature
  check_parts raw_body none signature secret now = false
  check_parts raw_body (some timestamp) none secret now = false
  check_parts raw_body (some timestamp) (some signature) secret now =
      check_signature raw_body timestamp signature secret now

  unfoldable pub verify_stripe_signature : Text → Text → Text → ℕ → Bool
  unfolding to_entry property check_parts
  verify_stripe_signature raw_body header secret now =
      let parts : List (Text × Option Text) = map to_entry (split b',' header) in
      check_parts raw_body (given (property (b't' ∷ []) parts))
        (given (property (b'v' ∷ b'1' ∷ []) parts)) secret now
