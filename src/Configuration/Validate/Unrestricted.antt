-- ===== src/Configuration/Validate/Unrestricted.antt =====
-- Which names the validation accepts.
use ces_importer.Base.{
  ◌∙◌, String, ◌≡◌, refl, Bool, true, false, ◌&&◌, ◌||◌, Option, [], ◌∷◌, Error, arith,
}
use Prim.Native.Char.{Char}
use ces_importer.Configuration.Validate.{
  one, text_begin, text_end, many_then, match_here, match_from, match_string, is_alpha_num,
  starts_with_alpha_num, ends_with_alpha_num, alpha_numeric_with, is_none, k8s_secret_name,
  k8s_secret_data_key,
}

-- The pattern is not anchored, so it matches the empty text in any text.
alpha_numeric_with_lem : (s chars : String) → alpha_numeric_with s chars ≡ true
unfolding alpha_numeric_with match_string match_from match_here many_then
alpha_numeric_with_lem String.[] chars = refl
alpha_numeric_with_lem (String.◌∷◌ c s) chars = refl

-- The first and the last character of a text.
abbrev pub first_is : (Char → Bool) → String → Bool
first_is cls String.[] = false
first_is cls (String.◌∷◌ c s) = cls c

unfoldable pub last_is : (Char → Bool) → String → Bool
last_is cls String.[] = false
last_is cls (String.◌∷◌ c String.[]) = cls c
last_is cls (String.◌∷◌ c (String.◌∷◌ d s)) = last_is cls (String.◌∷◌ d s)

later_fails : (s : String) → match_from (text_begin ∷ one is_alpha_num ∷ []) false s ≡ false
unfolding match_from match_here
later_fails String.[] = refl
later_fails (String.◌∷◌ c s) = later_fails s

starts_with_alpha_num_lem : (s : String) → starts_with_alpha_num s ≡ first_is is_alpha_num s
unfolding starts_with_alpha_num match_string match_from match_here
starts_with_alpha_num_lem String.[] = refl
starts_with_alpha_num_lem (String.◌∷◌ c s) = ground (arith, later_fails s)

and_true_or_false : (a : Bool) → (a && true || false) ≡ a
and_true_or_false true = refl
and_true_or_false false = refl

and_false_or : (a b : Bool) → (a && false || b) ≡ b
and_false_or true b = refl
and_false_or false b = refl

ends_from :
    (b : Bool) (s : String)
    → match_from (one is_alpha_num ∷ text_end ∷ []) b s ≡ last_is is_alpha_num s
unfolding match_from match_here last_is
ends_from b String.[] = refl
ends_from b (String.◌∷◌ c String.[]) = and_true_or_false (is_alpha_num c)
ends_from b (String.◌∷◌ c (String.◌∷◌ d s)) =
    and_false_or (is_alpha_num c) _ ∙ ends_from false (String.◌∷◌ d s)

module _ (validate_var : String → String → Option Error) where
  -- A name of a secret is accepted exactly if the validator finds it in lower case and no longer than 253 characters and its first and its last character are letters or
  -- digits, and a key of a secret exactly if it is no longer than that and begins and ends so. What stands between makes no difference.
  pub k8s_secret_name-unrestricted :
      (s : String)
      → (k8s_secret_name validate_var s ≡ (
          is_none (validate_var s "lowercase,max=253")
          && first_is is_alpha_num s
          && last_is is_alpha_num s))
        × (k8s_secret_data_key validate_var s ≡ (
            is_none (validate_var s "max=253")
            && first_is is_alpha_num s
            && last_is is_alpha_num s))
  unfolding k8s_secret_name k8s_secret_data_key ends_with_alpha_num match_string
  k8s_secret_name-unrestricted s =
      let starts = starts_with_alpha_num_lem s in
      let ends = ends_from true s in
      let all = alpha_numeric_with_lem s in
      (ground (arith, starts, ends, all "-."), ground (arith, starts, ends, all "-._"))
