-- ===== src/Route/Effort.antt =====
-- What proxy.go does to the fields of a body.
use foxrouters.Route.{Value, Body, Route, to_codebuddy, UpstreamCall, to_grok}
use foxrouters.Combo.{Combo}
use foxrouters.Prelude.{Str, codes, ◌≡◌, ◌≢◌, Option, none, some}
use foxrouters.Prelude.Assoc.{lookup}
use foxrouters.Combo

-- A field that is there keeps its value.
abbrev pub Keeps : Body → Body → Type 0
Keeps b b' =
    (key : Str) (v : Value) → key ≢ codes "model" → lookup key b ≡ some v → lookup key b' ≡ some v

-- The route that is left, if there is one, keeps the fields.
abbrev Reached : Body → Option Route → Type 0
Reached body none = Unit
Reached body (some u) = Keeps body u.body

-- The body that a call sends.
abbrev pub body_of : UpstreamCall → Body
body_of (to_grok b model) = b
body_of (to_codebuddy b bm) = b
