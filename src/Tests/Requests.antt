-- ===== src/Tests/Requests.antt =====
-- A combo's search and a posted body at concrete requests.
use powergslb.Base.{◌↔◌, ◌≡◌, refl, [], ◌∷◌, some, codes}
use powergslb.Base.Dict.{get, text_key}
use powergslb.Base.Values.{str}
use powergslb.Routing.Create.{Spec}
use powergslb.Server.Request.{routed, do_post, HasLength, IsOnRoute, do_post-routed}

abbrev query : Spec
query = (codes "field", str (codes "domain")) ∷ (codes "search", str (codes "ex")) ∷ []

query-search : get (codes "search") query ≡ some (str (codes "ex"))
unfolding get
query-search = refl

do_post-concrete :
    do_post 65536 (codes "admin") (codes "admin" ∷ codes "w2ui" ∷ []) (some (codes "12"))
    ≡ routed 12
unfolding do_post
do_post-concrete = refl

do_post-routed_example :
    (do_post 65536 (codes "admin") (codes "admin" ∷ codes "w2ui" ∷ []) (some (codes "12"))
      ≡ routed 12)
    ↔ (HasLength 65536 (some (codes "12")) 12
        × IsOnRoute (codes "admin") (codes "admin" ∷ codes "w2ui" ∷ []))
do_post-routed_example =
    do_post-routed 65536 (codes "admin") (codes "admin" ∷ codes "w2ui" ∷ []) (some (codes "12")) 12
