-- ===== src/Tests/Audits.antt =====
-- Audited writes of the domains, run on a server.
use powergslb.Base.{◌≡◌, refl, ℕ, suc, [], ◌∷◌, Text, codes, Result, ok}
use powergslb.Base.Values.{pos, int, str}
use powergslb.Database.Program.{Executor, run}
use powergslb.Database.Table.Registry.{domains_table}
use powergslb.Database.W2ui.{UserContext, save_block}
use powergslb.Database.W2ui.Stored.{SavesAndRecords, save_block-SavesAndRecords}
use powergslb.Routing.Create.{Spec}
use powergslb.Tests.Setup.{casing}
use powergslb.Tests.Tables.{python, library}

abbrev dumps : Spec → Result Text
dumps row = ok (codes "{}")

abbrev context : UserContext
context = record {
  id = pos 1;
  user = codes "root";
  name = codes "Root";
  client_ip = codes "192.0.2.9";
}

abbrev posted_domain : Spec
posted_domain = (codes "domain", str (codes "example.org")) ∷ []

abbrev row : Spec
row = (codes "recid", int (pos 4)) ∷ (codes "domain", str (codes "example.com")) ∷ []

-- The server has one row, and its state counts the writes.
abbrev server : Executor ℕ
server = record {
  on_select = λ operation params s. (ok (row ∷ []), s);
  on_modify = λ operation params s. (ok 1, suc s);
  last_id = λ s. 4;
}

saved :
    run server
      (save_block python casing library dumps domains_table
        (codes "domains")
        (pos 4)
        context
        posted_domain)
      0
    ≡ (ok 1, 2)
unfolding save_block
saved = refl

save_block-SavesAndRecords_example :
    SavesAndRecords python casing library dumps domains_table server
      (codes "domains")
      context
      (pos 4)
      posted_domain
      0
      1
      2
save_block-SavesAndRecords_example =
    save_block-SavesAndRecords python casing library dumps domains_table server (codes "domains")
      context (pos 4) posted_domain 0 2 1 saved
