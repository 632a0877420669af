-- ===== src/Artifacts/Keys.antt =====
-- `_normalize_key`: the validation of object keys, on the characters of the key.
pub mod Segments
pub mod Clean
use Prim.Native.Char.{Char, code}
use Prim.Native.String
use text.Mathlib.TextBridge.{of_list}
use fabric_shortcut_proxy.Prelude.{
  ℕ, String, str_eq, Bool, true, false, ◌&&◌, ◌||◌, Option, none, some, List, [], ◌∷◌, ◌++◌, map,
  ◌==◌, if◌then◌else◌,
}
use mathlib.Core.Option

abbrev pub Chars : Type 0
Chars = List Char

abbrev pub chars : String → Chars
chars String.[] = []
chars (String.◌∷◌ c s) = c ∷ chars s

abbrev pub slash : Char
slash = "/"

abbrev pub is_slash : Char → Bool
is_slash c = code c == b'/'

abbrev pub is_backslash : Char → Bool
is_backslash c = code c == 92

-- `.replace("\\", "/")`, on one character
abbrev pub forward : Char → Char
forward c = if is_backslash c then slash else c

-- `.strip("/")`
unfoldable pub lstrip : Chars → Chars
lstrip [] = []
lstrip (c ∷ cs) = if is_slash c then lstrip cs else c ∷ cs

-- Keeps a character if anything is kept behind it, or if it is no slash.
abbrev pub keep : Char → Chars → Chars
keep c [] = if is_slash c then [] else c ∷ []
keep c (d ∷ ds) = c ∷ d ∷ ds

unfoldable pub rstrip : Chars → Chars
rstrip [] = []
rstrip (c ∷ cs) = keep c (rstrip cs)

abbrev pub extend : Char → List Chars → List Chars
extend c [] = (c ∷ []) ∷ []
extend c (seg ∷ segs) = (c ∷ seg) ∷ segs

-- `.split("/")`
unfoldable pub split : Chars → List Chars
split [] = [] ∷ []
split (c ∷ cs) = let rest = split cs in if is_slash c then [] ∷ rest else extend c rest

-- `"/".join`
unfoldable pub join : List Chars → Chars
join [] = []
join (seg ∷ []) = seg
join (seg ∷ next ∷ segs) = seg ++ slash ∷ join (next ∷ segs)

abbrev pub is_word : String → Chars → Bool
is_word w seg = str_eq (of_list seg) w

-- `seg in ("", ".")`
abbrev pub is_skipped : Chars → Bool
is_skipped seg = is_word "" seg || is_word "." seg

-- The loop over the segments; `none` is the `ValueError`.
unfoldable pub clean : List Chars → Option (List Chars)
clean [] = some []
clean (seg ∷ segs) =
    let rest = clean segs in
    if is_skipped seg
    then rest
    else if is_word ".." seg
    then none
    else Option.map (λ parts. seg ∷ parts) rest

abbrev pub joined_key : Option (List Chars) → Option Chars
joined_key none = none
joined_key (some []) = none
joined_key (some (seg ∷ segs)) = some (join (seg ∷ segs))

abbrev pub parts_of : Chars → Option Chars
parts_of [] = none
parts_of (c ∷ cs) = joined_key (clean (split (c ∷ cs)))

unfoldable pub normalize : Chars → Option Chars
unfolding lstrip rstrip clean split join
normalize [] = none
normalize (c ∷ cs) = parts_of (rstrip (lstrip (map forward (c ∷ cs))))

unfoldable pub normalize_key : String → Option String
unfolding normalize
normalize_key key = Option.map of_list (normalize (chars key))
