-- ===== src/Storage.antt =====
-- `buildObjectKey` of src/storage/storage.service.ts; what puts, signs and deletes objects is the client of
-- the object store. The random text of `nanoid` is an argument.
pub mod Tests
use idea_project.Base.{
  ℕ, zero, suc, ◌+◌, ◌≡◌, refl, Bool, true, false, ◌||◌, ◌&&◌, not, List, [], ◌∷◌, ◌++◌, map, any,
  count, nat_beq, if◌then◌else◌, arith, leb,
}
use idea_project.Base.Texts.{Text, is_between}

-- `[a-zA-Z0-9._-]`
unfoldable pub is_safe_char : ℕ → Bool
is_safe_char c =
    is_between b'a' b'z' c
    || is_between b'A' b'Z' c
    || is_between b'0' b'9' c
    || nat_beq c b'.'
    || nat_beq c b'_'
    || nat_beq c b'-'

-- `fileName.replace(/[^a-zA-Z0-9._-]/g, '_')`
unfoldable pub safe_name : Text → Text
safe_name [] = []
safe_name (c ∷ cs) = (if is_safe_char c then c else b'_') ∷ safe_name cs

abbrev pub businesses_prefix : Text
businesses_prefix = b'b' ∷ b'u' ∷ b's' ∷ b'i' ∷ b'n' ∷ b'e' ∷ b's' ∷ b's' ∷ b'e' ∷ b's' ∷ b'/' ∷ []

abbrev pub documents_part : Text
documents_part = b'/' ∷ b'd' ∷ b'o' ∷ b'c' ∷ b'u' ∷ b'm' ∷ b'e' ∷ b'n' ∷ b't' ∷ b's' ∷ b'/' ∷ []

-- `businesses/${businessId}/documents/${nanoid()}-${safeName}`
unfoldable pub build_object_key : Text → Text → Text → Text
build_object_key business_id nanoid file_name =
    businesses_prefix ++ (business_id ++ (documents_part ++ (nanoid ++ b'-' ∷ safe_name file_name)))

abbrev pub is_slash : ℕ → Bool
is_slash c = nat_beq c b'/'

no_slash : (t : Text) → count is_slash (safe_name t) ≡ 0
unfolding safe_name is_safe_char
no_slash [] = refl
no_slash (c ∷ cs) = ground (arith, no_slash cs)

count-append : (p : ℕ → Bool) (xs ys : Text) → count p (xs ++ ys) ≡ count p xs + count p ys
count-append p [] ys = omega arith
count-append p (x ∷ xs) ys = ground (arith, count-append p xs ys)

-- The name of an uploaded file, whatever it holds, adds no folder to the object's key: under an
-- identifier and a random text without a slash the key has exactly the three slashes of its form.
pub build_object_key-slashes :
    (business_id nanoid file_name : Text)
    → count is_slash business_id ≡ 0
    → count is_slash nanoid ≡ 0
    → count is_slash (build_object_key business_id nanoid file_name) ≡ 3
unfolding build_object_key
build_object_key-slashes business_id nanoid file_name b n = ground (
  arith,
  count-append is_slash business_id (documents_part ++ (nanoid ++ b'-' ∷ safe_name file_name)),
  count-append is_slash nanoid (b'-' ∷ safe_name file_name),
  no_slash file_name,
)
