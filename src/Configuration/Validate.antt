-- ===== src/Configuration/Validate.antt =====
-- configuration/validate.go: the names of secrets and of their keys. `Var` of the validator library is a parameter; `regexp` is
-- modelled for the patterns that the file has: anchors, one character of a class, and any number of them.
pub mod Unrestricted
use ces_importer.Base.{
  ℕ, String, Bool, true, false, ◌&&◌, ◌||◌, not, Option, none, some, List, [], ◌∷◌, Error, leb,
  nat_eq, if◌then◌else◌,
}
use Prim.Native.String
use Prim.Native.Char.{Char, code}

pub data Item : Type 0 where
  -- `^` and `$`
  text_begin text_end : Item
  -- `[…]` and `[…]*`
  one many : (Char → Bool) → Item

-- Whether `k` accepts what is left after some characters of the class.
unfoldable pub many_then : (Char → Bool) → (Bool → String → Bool) → Bool → String → Bool
many_then cls k at_begin String.[] = k at_begin String.[]
many_then cls k at_begin (String.◌∷◌ c s) =
    let more = many_then cls k false s in k at_begin (String.◌∷◌ c s) || (cls c && more)

abbrev is_empty : String → Bool
is_empty String.[] = true
is_empty (String.◌∷◌ _ _) = false

abbrev first_in : (Char → Bool) → (Bool → String → Bool) → String → Bool
first_in cls k String.[] = false
first_in cls k (String.◌∷◌ c s) = cls c && k false s

-- A match of the items from here on; the flag tells whether here is the beginning of the text.
unfoldable pub match_here : List Item → Bool → String → Bool
match_here [] at_begin s = true
match_here (text_begin ∷ items) at_begin s = at_begin && match_here items at_begin s
match_here (text_end ∷ items) at_begin s = is_empty s && match_here items at_begin s
match_here (one cls ∷ items) at_begin s = first_in cls (match_here items) s
match_here (many cls ∷ items) at_begin s = many_then cls (match_here items) at_begin s

-- `regexp.MatchString`: a match that begins anywhere.
unfoldable pub match_from : List Item → Bool → String → Bool
match_from items at_begin String.[] = match_here items at_begin String.[]
match_from items at_begin (String.◌∷◌ c s) =
    let later = match_from items false s in match_here items at_begin (String.◌∷◌ c s) || later

unfoldable pub match_string : List Item → String → Bool
match_string items s = match_from items true s

abbrev between : ℕ → ℕ → Char → Bool
between a b c = leb a (code c) && leb (code c) b

-- `A-Za-z0-9`
abbrev pub is_alpha_num : Char → Bool
is_alpha_num c = between 65 90 c || between 97 122 c || between 48 57 c

unfoldable pub is_one_of : String → Char → Bool
is_one_of String.[] c = false
is_one_of (String.◌∷◌ d s) c = let rest = is_one_of s c in nat_eq (code d) (code c) || rest

unfoldable pub starts_with_alpha_num : String → Bool
starts_with_alpha_num = match_string (text_begin ∷ one is_alpha_num ∷ [])

unfoldable pub ends_with_alpha_num : String → Bool
ends_with_alpha_num = match_string (one is_alpha_num ∷ text_end ∷ [])

-- `chars` are those of the arguments, joined.
unfoldable pub alpha_numeric_with : String → String → Bool
alpha_numeric_with s chars = match_string (many (λ c. is_alpha_num c || is_one_of chars c) ∷ []) s

abbrev pub is_none : Option Error → Bool
is_none none = true
is_none (some _) = false

module _ (validate_var : String → String → Option Error) where
  unfoldable pub k8s_secret_name : String → Bool
  k8s_secret_name name =
      if not (is_none (validate_var name "lowercase,max=253"))
      then false
      else if not
          (starts_with_alpha_num name && ends_with_alpha_num name && alpha_numeric_with name "-.")
      then false
      else true

  unfoldable pub k8s_secret_data_key : String → Bool
  k8s_secret_data_key key =
      if not (is_none (validate_var key "max=253"))
      then false
      else if not
          (starts_with_alpha_num key && ends_with_alpha_num key && alpha_numeric_with key "-._")
      then false
      else true
