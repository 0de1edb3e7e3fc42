-- ===== src/Database/W2ui/Saved.antt =====
-- The audit row of a save (database/mysql/w2ui.py).
use powergslb.Base.{◌≡◌, Option, none, some, Text, codes, Result, ok}
use powergslb.Base.Values.{ℤ}
use powergslb.Database.Table.Search.{Python}
use powergslb.Database.Table.Trail.{AuditRow}
use powergslb.Database.W2ui.{UserContext}
use powergslb.Password.{Crypt}
use powergslb.Routing.Create.{Spec}
use powergslb.View.{Casing}

-- `_record_json` of a row, where it is serialized.
abbrev pub JsonOf : (Spec → Result Text) → Option Spec → Option Text → Type 0
JsonOf dumps none text = text ≡ none
JsonOf dumps (some row) none = ⊥
JsonOf dumps (some row) (some text) = dumps row ≡ ok text

module _ (python : Python) (casing : Casing) (library : Crypt) (dumps : Spec → Result Text) where
  module _ (data_token : Text) (context : UserContext) where
    abbrev pub trace_of_save : ℤ → Option Text → Text → AuditRow
    trace_of_save recid before text = record {
      user = context.user;
      client_ip = context.client_ip;
      action = codes "save";
      data_token = data_token;
      record_id = recid;
      record_before = before;
      record_after = some text;
    }
