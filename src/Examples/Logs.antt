-- ===== src/Examples/Logs.antt =====
-- The log of a service that has started and logged once more.
use lab_env.Common.{
  String, ◌≡◌, ◌∷◌, [], List, refl, none, some, inl, inr, length, nat_eq, true, arith, subst,
}
use lab_env.Common.Errors.{Result, ok, err, message}
use lab_env.Common.Bytes.{Bytes, codes, has_text}
use lab_env.Conformance.Observer.{Observer}
use lab_env.Conformance.Catalog.Outcomes.{passes}
use lab_env.Conformance.Catalog.Files.{check_l001, check_l002, check_l003}
use lab_env.Service.Logging.{Encoder, Call, Logger, Level, Item, write_all}
use lab_env.Service.Logging.Checked.{Valid, find, startup, startup_text, write_all-checks}
use lab_env.Examples.{json}

-- An encoder that knows one entry.
abbrev entry_text : Bytes
entry_text = codes "{\"level\":\"info\",\"msg\":\"server started\"}"

abbrev encoder : Encoder
encoder = record {
  marshal = λ entry. ok entry_text;
  quote = λ s. codes "\"\"";
  quote_error = λ e. codes "\"\"";
}

abbrev calls : List Call
calls =
    startup "12:00" (Item.string "127.0.0.1:8080") (Item.string "prod") (Item.other "false")
    ∷ record { ts = "12:01"; level = Level.warn; msg = "chaos drop"; kvs = [] }
    ∷ []

-- The second write fails at once.
abbrev logger : Logger
logger = record { file = []; failures = none ∷ some 0 ∷ [] }

abbrev log_file : Bytes
log_file = (write_all encoder calls logger).file

abbrev reader : Observer (Unit {0})
reader = record {
  stat = λ path s. ok (record { size = length log_file });
  read_file = λ path s. ok log_file;
  check_process = λ name user s. err (message "");
  check_port = λ addr s. err (message "");
  check_endpoint = λ url skip s. err (message "");
  resolve_host = λ name s. err (message "");
  service_active = λ name s. ok true;
  service_enabled = λ name s. ok true;
  run_command = λ name args s. err (message "");
}

entry_text-Valid : Valid json entry_text
entry_text-Valid = (ground arith, λ h. cc, refl)

abbrev Shown : Result Bytes → Type 0
Shown (ok line) = has_text line startup_text ≡ true
Shown (err e) = Unit

entry_text-shows : has_text entry_text startup_text ≡ true
unfolding has_text
entry_text-shows = refl

encoder-shows :
    (entry : List (String × Item)) (line : Bytes)
    → find "msg" entry ≡ some (Item.string "server started")
    → encoder.marshal entry ≡ ok line
    → has_text line startup_text ≡ true
encoder-shows entry line shows is = subst Shown is entry_text-shows

write_all-checks_example :
    (check_l001.execute reader tt ≡ passes)
    × ((check_l002 json).execute reader tt ≡ passes)
    × (check_l003.execute reader tt ≡ passes)
write_all-checks_example =
    write_all-checks encoder json (λ entry. (entry_text, refl, entry_text-Valid)) reader tt
      (record { size = length log_file }) "12:00" (Item.string "127.0.0.1:8080")
      (Item.string "prod") (Item.other "false")
      (record { ts = "12:01"; level = Level.warn; msg = "chaos drop"; kvs = [] } ∷ []) logger
      (some 0 ∷ []) encoder-shows (inl refl) refl (inr refl, tt) refl refl refl
