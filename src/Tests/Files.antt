-- ===== src/Tests/Files.antt =====
-- The theorem about the paths of stored objects at one key.
use second_hand_market_backe.Base.{◌≡◌, ℕ, refl, List, [], ◌∷◌, ◌++◌}
use second_hand_market_backe.Base.Text.{
  codes, trim_space, is_blank, contains, has_prefix, same_bytes,
}
use second_hand_market_backe.Errors.{ok}
use second_hand_market_backe.Files.{Paths, within, path_below, local_object_path}
use second_hand_market_backe.Files.Below.{IsBelow, local_object_path-IsBelow}

abbrev rest_after : List ℕ → List ℕ → List ℕ
rest_after [] [] = []
rest_after [] (c ∷ t) = t
rest_after (b ∷ base) [] = []
rest_after (b ∷ base) (c ∷ t) = rest_after base t

-- What path/filepath does on absolute roots and keys without steps.
abbrev plain_paths : Paths
plain_paths = record {
  absolute = ok;
  join = λ base key. base ++ (b'/' ∷ key);
  relative = λ base target. ok (rest_after base target);
}

lamp_stored :
    local_object_path plain_paths (codes "/data") (codes " shop/lamp.jpg ")
    ≡ ok (codes "/data/shop/lamp.jpg")
unfolding local_object_path path_below within trim_space is_blank contains has_prefix same_bytes
lamp_stored = refl

local_object_path-IsBelow_example :
    IsBelow plain_paths (codes "/data") (codes " shop/lamp.jpg ") (codes "/data/shop/lamp.jpg")
local_object_path-IsBelow_example =
    local_object_path-IsBelow plain_paths (codes "/data") (codes " shop/lamp.jpg ")
      (codes "/data/shop/lamp.jpg") lamp_stored
