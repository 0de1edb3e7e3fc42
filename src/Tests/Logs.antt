-- ===== src/Tests/Logs.antt =====
-- What is logged of a query.
use powergslb.Base.{◌≡◌, codes, [], ◌∷◌}
use powergslb.Base.Values.{Fields, str, end, field}
use powergslb.Password.{mask}
use powergslb.Routing.Create.{Spec}
use powergslb.Server.Admin.Masked.{masked_query, posting, masked_query-posting}

abbrev user : Fields
user = field (codes "user") (str (codes "admin")) (field (codes "password") (str (codes "old")) end)

abbrev saved : Spec
saved = (codes "cmd", str (codes "save-record")) ∷ []

masked_query-posting_example :
    masked_query (posting (str (codes "secret")) user saved) ≡ posting (str mask) user saved
masked_query-posting_example = masked_query-posting (str (codes "secret")) user saved
