-- ===== src/Csrf/Tests.antt =====
-- A page of another host that posts with the cookie, and the theorem at it.
use foxrouters.Csrf.Origins.{Lacks, csrf_guard-url}
use foxrouters.Csrf.{Request, same_origin, csrf_guard, is_safe_method}
use foxrouters.Prelude.{str_eq, has_prefix, codes, index, ◌≡◌, refl, inl, true, false, []}

abbrev foreign : Request
foreign = record {
  method = codes "POST";
  has_cookie = true;
  authorization = [];
  host = codes "gw.example:20130";
  origin = codes "https://evil.example:20130";
  referer = [];
}

not_safe : is_safe_method foreign.method ≡ false
unfolding is_safe_method str_eq
not_safe = refl

no_bearer : has_prefix foreign.authorization (codes "Bearer ") ≡ false
unfolding has_prefix
no_bearer = refl

scheme-Lacks : Lacks 58 (codes "https")
unfolding Lacks
scheme-Lacks = (refl, (refl, (refl, (refl, (refl, tt)))))

host-Lacks : Lacks 47 (codes "evil.example:20130")
unfolding Lacks
host-Lacks = (
  refl,
  (
    refl,
    (
      refl,
      (
        refl,
        (
          refl,
          (
            refl,
            (
              refl,
              (
                refl,
                (refl, (refl, (refl, (refl, (refl, (refl, (refl, (refl, (refl, (refl, tt)))))))))),
              ),
            ),
          ),
        ),
      ),
    ),
  ),
)

csrf_guard-url_example : csrf_guard foreign ≡ str_eq (codes "evil.example:20130") foreign.host
csrf_guard-url_example =
    csrf_guard-url foreign (codes "https") (codes "evil.example:20130") [] not_safe refl no_bearer
      (inl refl) scheme-Lacks host-Lacks tt

foreign_blocked : csrf_guard foreign ≡ false
unfolding csrf_guard same_origin is_safe_method index has_prefix str_eq
foreign_blocked = refl
