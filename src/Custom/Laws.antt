-- ===== src/Custom/Laws.antt =====
-- Resolve of custom.go against the calls that change the registry.
use foxrouters.Custom.{
  delete_alias, store_alias, CustomError, add_trimmed_alias, resolve, add_alias, CustomRegistry,
  follow, route_model, save_row, erase_alias, save_custom_alias, CustomModel,
}
use foxrouters.Names.Laws.{IsName, validate_name-none_iff}
use foxrouters.Prelude.{
  str_iff, codes, Str, ◌≡◌, refl, ◌≢◌, Bool, Option, none, some, [], arith, if◌then◌else◌, ◌∷◌, ◌∙◌,
}
use foxrouters.Prelude.Assoc.{
  lookup, insert, lookup-insert_ne, lookup-insert_self, lookup-erase_ne, erase, lookup-erase_self,
}
use foxrouters.Prelude.Space.{trim_space}

store_alias_ok :
    (r : CustomRegistry) (alias target : Str) (o : Option CustomError)
    → (store_alias r alias target o).1 ≡ none
    → (store_alias r alias target o).0 ≡ record r { aliases = insert alias target r.aliases }
unfolding store_alias
store_alias_ok r alias target none h = refl
store_alias_ok r alias target (some e) h = cc

add_trimmed_alias_ok :
    (r : CustomRegistry) (ok : Bool) (alias target : Str)
    → (add_trimmed_alias r ok alias target).1 ≡ none
    → (add_trimmed_alias r ok alias target).0 ≡ record r { aliases = insert alias target r.aliases }
unfolding add_trimmed_alias
add_trimmed_alias_ok r ok alias target h = ground (
  arith,
  store_alias_ok r alias target (if r.store then save_custom_alias ok alias target else none),
)

add_trimmed_alias_target :
    (r : CustomRegistry) (ok : Bool) (alias target : Str)
    → (add_trimmed_alias r ok alias target).1 ≡ none
    → IsName target
unfolding add_trimmed_alias
add_trimmed_alias_target r ok alias target h =
    (validate_name-none_iff target (codes "target")).0 (ground arith)

IsName-ne-nil : (s : Str) → IsName s → s ≢ []
IsName-ne-nil [] n = absurd (omega (arith, n.nonempty))
IsName-ne-nil (c ∷ s) n = λ e. cc

follow-some : (model target : Str) → target ≢ [] → follow model (some target) ≡ target
unfolding follow
follow-some model target h = ground (arith, str_iff target [])

-- After an AddAlias without an error, Resolve of the trimmed alias yields the trimmed target, with
-- the upstream and name that the target has as a custom model, and does not follow an alias of the
-- target. Every other model resolves as before.
pub resolve-add_alias :
    (r : CustomRegistry) (ok : Bool) (alias target : Str)
    → (add_alias r ok alias target).1 ≡ none
    → (resolve (add_alias r ok alias target).0 (trim_space alias)
        ≡ route_model (trim_space target) (lookup (trim_space target) r.models))
      × ((other : Str)
          → trim_space alias ≢ other
          → resolve (add_alias r ok alias target).0 other ≡ resolve r other)
unfolding add_alias resolve
resolve-add_alias r ok alias target h =
    let a = trim_space alias in
    let t = trim_space target in
    let e = add_trimmed_alias_ok r ok a t h in
    let n = IsName-ne-nil t (add_trimmed_alias_target r ok a t h) in
    (
      rw (e, lookup-insert_self a t r.aliases, follow-some a t n),
      λ other ne. rw (e, lookup-insert_ne a other t r.aliases ne),
    )

erase_alias_ok :
    (r : CustomRegistry) (alias : Str) (o : Option CustomError)
    → (erase_alias r alias o).1 ≡ none
    → (erase_alias r alias o).0 ≡ record r { aliases = erase alias r.aliases }
unfolding erase_alias
erase_alias_ok r alias none h = refl
erase_alias_ok r alias (some e) h = cc

route_model_resolved :
    (model : Str) (o : Option CustomModel) → (route_model model o).resolved_model ≡ model
unfolding route_model
route_model_resolved model none = refl
route_model_resolved model (some cm) = refl

-- After a DeleteAlias without an error, Resolve no longer rewrites the alias, and every other model
-- resolves as before.
pub resolve-delete_alias :
    (r : CustomRegistry) (ok : Bool) (alias : Str)
    → (delete_alias r ok alias).1 ≡ none
    → ((resolve (delete_alias r ok alias).0 alias).resolved_model ≡ alias)
      × ((other : Str)
          → alias ≢ other
          → resolve (delete_alias r ok alias).0 other ≡ resolve r other)
unfolding delete_alias resolve follow route_model
resolve-delete_alias r ok alias h =
    let r' = (delete_alias r ok alias).0 in
    let e = erase_alias_ok r alias (if r.store then save_row ok else none) h in
    (
      route_model_resolved (follow alias (lookup alias r'.aliases)) _
          ∙ rw (e, lookup-erase_self alias r.aliases),
      λ other ne. rw (e, lookup-erase_ne alias other r.aliases ne),
    )
