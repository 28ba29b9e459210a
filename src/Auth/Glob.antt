-- ===== src/Auth/Glob.antt =====
-- MatchModel and the whitelist of a key in internal/auth/auth.go.
use foxrouters.Prelude.Suffix.{has_suffix-append, has_suffix_split, trim_suffix-append}
use mathlib.Core.List.{append_assoc}
use foxrouters.Auth.{match_model}
use foxrouters.Prelude.{
  Bool-cases, drop, length, Str, trim_suffix, str_eq, codes, has_prefix, has_suffix, str_iff,
  has_prefix_split, ◌≡◌, refl, sym, ◌∙◌, subst, ◌↔◌, inl, inr, true, ◌++◌, has_prefix-append, arith,
}

-- A pattern admits its own text, and with a last '*' every text that begins with what stands before.
pub data Admits (pattern model : Str) : Type 0 where
  exact : pattern ≡ model → Admits pattern model
  stem : (s rest : Str) → pattern ≡ s ++ codes "*" → model ≡ s ++ rest → Admits pattern model

stem_of :
    (u model : Str)
    → has_prefix model (trim_suffix (u ++ codes "*") (codes "*")) ≡ true
    → Admits (u ++ codes "*") model
stem_of u model h =
    let h' : has_prefix model u ≡ true =
      rw (trim_suffix-append u (codes "*") (has_suffix-append u (codes "*"))) at h in
    stem u (drop (length u) model) refl (has_prefix_split model u h')

star_of_slash : (p : Str) → has_suffix p (codes "/*") ≡ true → has_suffix p (codes "*") ≡ true
star_of_slash p h =
    let (u, e) = has_suffix_split p (codes "/*") h in
    let e' : p ≡ (u ++ codes "/") ++ codes "*" = e ∙ sym (append_assoc u (codes "/") (codes "*")) in
    rw e' (has_suffix-append (u ++ codes "/") (codes "*"))

match_model_sound : (pattern model : Str) → match_model pattern model ≡ true → Admits pattern model
unfolding match_model
match_model_sound p m h = elim (Bool-cases (str_eq p m)) [
  | inl e ↦ exact ((str_iff p m).0 e)
  | inr ne ↦ elim (Bool-cases (has_suffix p (codes "*"))) [
    | inl star ↦
        let (u, e) = has_suffix_split p (codes "*") star in
        subst (λ t. Admits t m) (sym e)
          (stem_of u m
            (subst (λ t. has_prefix m (trim_suffix t (codes "*")) ≡ true) e (rw (ne, star) at h)))
    | inr no_star ↦ absurd (ground (arith, star_of_slash p))
  ]
]

match_model_complete :
    (pattern model : Str) → Admits pattern model → match_model pattern model ≡ true
unfolding match_model
match_model_complete p m (exact e) = rw ((str_iff p m).1 e)
match_model_complete p m (stem s rest e f) =
    let star : has_suffix p (codes "*") ≡ true = rw e (has_suffix-append s (codes "*")) in
    let cut : trim_suffix p (codes "*") ≡ s =
      rw e (trim_suffix-append s (codes "*") (has_suffix-append s (codes "*"))) in
    let pre : has_prefix m s ≡ true = rw f (has_prefix-append s rest) in ground arith

-- A pattern matches a model exactly if they are the same text, or the pattern is some text with a
-- '*' behind it and the model begins with that text. A '*' further inside stands for itself, and the
-- branch of the code for a last "/*" adds nothing.
pub match_model-Admits :
    (pattern model : Str) → (match_model pattern model ≡ true) ↔ Admits pattern model
match_model-Admits p m = (match_model_sound p m, match_model_complete p m)
