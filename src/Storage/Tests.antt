-- ===== src/Storage/Tests.antt =====
-- The key of a file whose name climbs out of its folder.
use idea_project.Base.{◌≡◌, refl, count, ◌∷◌, []}
use idea_project.Storage.{build_object_key, is_slash, build_object_key-slashes}

-- `a/../b` in the business `1`, with the random text `x`.
build_object_key-slashes_example :
    count is_slash
      (build_object_key (b'1' ∷ []) (b'x' ∷ []) (b'a' ∷ b'/' ∷ b'.' ∷ b'.' ∷ b'/' ∷ b'b' ∷ []))
    ≡ 3
build_object_key-slashes_example =
    build_object_key-slashes (b'1' ∷ []) (b'x' ∷ []) (b'a' ∷ b'/' ∷ b'.' ∷ b'.' ∷ b'/' ∷ b'b' ∷ [])
      refl refl
