-- ===== src/Executor/Real.antt =====
-- internal/executor/real.go: the executor on a real system. The system calls and the commands that
-- it starts are the record System; each operation is audited after it was performed.
pub mod Audited
use Prim.Native.String.{◌++◌ as text_append}
use lab_env.Common.{
  ℕ, ◌/◌, ◌%◌, ◌*◌, String, Bool, true, false, not, ◌&&◌, ◌||◌, Option, none, some, List, [], ◌∷◌,
  ◌==◌, string_eq, if◌then◌else◌, is_none,
}
use lab_env.Common.Errors.{Error, Result, ok, err, errorf, text, cause, nil, wrap}
use lab_env.Common.Bytes.{Bytes}
use lab_env.Config.{
  config_path, unit_file_path, nginx_config_path, mode_config, mode_unit_file, mode_nginx_config,
  service_user, service_group, root_user, root_group,
}
use lab_env.Conformance.Observer.{Observer}
use lab_env.Executor.{Op, Executor}
use lab_env.Executor.Exec.{Exec, pure, wrapped, wrapped_result, continue, ◌>>=◌, ◌>>◌}
use lab_env.Executor.Decimal.{decimal_text}
use lab_env.Executor.Audit.{AuditLogger, log_op}
use lab_env.Executor.Machine.{Machine, logged}

-- What the operating system does; `sudo` runs a command with its arguments, and `dir` is
-- `filepath.Dir`.
pub record System (S : Type 0) : Type 0 where
  pub dir : String → String
  pub mkdir_all : String → ℕ → Exec S (Unit {0})
  pub create_temp : String → Exec S String
  pub write : String → Bytes → Exec S (Unit {0})
  pub sync : String → Exec S (Unit {0})
  pub close : String → Exec S (Unit {0})
  pub chmod : String → ℕ → Exec S (Unit {0})
  pub rename : String → String → Exec S (Unit {0})
  pub remove : String → Exec S (Unit {0})
  pub sudo : String → List String → Exec S (Unit {0})

pub record CanonicalFile : Type 0 where
  pub content : Bytes
  pub mode : ℕ
  pub owner : String
  pub group : String

-- `owner+":"+group`
abbrev pub owner_text : String → String → String
owner_text owner group = text_append owner (text_append ":" group)

-- `owner != "" || group != ""`
abbrev pub is_owned : String → String → Bool
is_owned owner group = not (owner == "") || not (group == "")

-- `%04o` of a mode below 010000
abbrev pub mode_text : ℕ → String
mode_text mode = text_append (decimal_text (mode / 512 % 8)) (
    text_append (decimal_text (mode / 64 % 8))
      (text_append (decimal_text (mode / 8 % 8)) (decimal_text (mode % 8))))

-- `strings.Join(texts, " ")`
pub joined : List String → String
joined [] = ""
joined (s ∷ []) = s
joined (s ∷ t ∷ rest) = text_append s (text_append " " (joined (t ∷ rest)))

abbrev pub error_of : Result (Unit {0}) → Option Error
error_of (ok done) = none
error_of (err e) = some e

abbrev pub code_of : Result (Unit {0}) → ℕ
code_of (ok done) = 0
code_of (err e) = 1

module _ {S : Type 0} (x : System S) where
  -- `if owner != "" || group != "" { … chown … }`
  chowned : String → String → String → Exec S (Unit {0})
  chowned path owner group =
      if is_owned owner group then x.sudo "chown" (owner_text owner group ∷ path ∷ []) else pure tt

  -- The `tmp.Close()` on the error path of a step.
  closing : String → Result (Unit {0}) → Exec S (Unit {0})
  closing tmp (ok done) s = (ok done, s)
  closing tmp (err e) s = let (dropped, s') = x.close tmp s in (err e, s')

  or_close : String → Exec S (Unit {0}) → Exec S (Unit {0})
  unfolding closing
  or_close tmp step s = let (r, s') = step s in closing tmp r s'

  -- The deferred removal of the temporary file of a write that did not succeed.
  pub removing : String → Result (Unit {0}) → Exec S (Unit {0})
  removing tmp (ok done) s = (ok done, s)
  removing tmp (err e) s = let (dropped, s') = x.remove tmp s in (err e, s')

  fill : String → Bytes → ℕ → String → String → String → Exec S (Unit {0})
  unfolding chowned or_close
  fill tmp bytes mode owner group path = do
    wrapped "writing temp file: %w" (or_close tmp (x.write tmp bytes))
    wrapped "syncing temp file: %w" (or_close tmp (x.sync tmp))
    wrapped "closing temp file: %w" (x.close tmp)
    wrapped "setting temp file mode: %w" (x.chmod tmp mode)
    wrapped "setting temp file ownership: %w" (chowned tmp owner group)
    wrapped "renaming temp file to %s: %w" (x.rename tmp path)

  -- `atomicWrite`
  pub atomic_write : String → Bytes → ℕ → String → String → Exec S (Unit {0})
  unfolding fill removing
  atomic_write path bytes mode owner group = do
    wrapped "creating parent directory %s: %w" (x.mkdir_all (x.dir path) 493)
    tmp ← wrapped "creating temp file: %w" (x.create_temp (x.dir path))
    (λ s. let (r, s') = fill tmp bytes mode owner group path s in removing tmp r s')

-- `buildCanonicalMap`, whose contents are embedded at build time.
pub record Embedded : Type 0 where
  pub app_config : Bytes
  pub unit_file : Bytes
  pub nginx_config : Bytes

-- `canonicalFiles`
unfoldable pub canonical : Embedded → String → Option CanonicalFile
canonical files path =
    if path == config_path
    then some (record {
      content = files.app_config;
      mode = mode_config;
      owner = service_user;
      group = service_group;
    })
    else if path == unit_file_path
    then some (record {
      content = files.unit_file;
      mode = mode_unit_file;
      owner = root_user;
      group = root_group;
    })
    else if path == nginx_config_path
    then some (record {
      content = files.nginx_config;
      mode = mode_nginx_config;
      owner = root_user;
      group = root_group;
    })
    else none

-- `now` and `elapsed` are what the clock gives to the entries of an operation.
module _ {S : Type 0} (x : System S) (files : Embedded) (now elapsed : ℕ) where
  -- An operation with its audit entry.
  pub operate : String → String → Exec S (Unit {0}) → Exec (Machine S) (Unit {0})
  operate name args step m =
      let (r, s) = step m.sys in
      (r, logged (log_op now name args elapsed (code_of r) (error_of r)) (record m { sys = s }))

  -- After `nginx -t`: a syntax error ends the call, without a reload and without an entry.
  pub reload_checked : Result (Unit {0}) → Exec (Machine S) (Unit {0})
  unfolding operate
  reload_checked (err e) m = (err (wrap "nginx config syntax check failed: %w" e), m)
  reload_checked (ok done) m = operate "NginxReload" "" (x.sudo "nginx" ("-s" ∷ "reload" ∷ [])) m

  -- `NginxReload`
  pub reload : Exec (Machine S) (Unit {0})
  unfolding reload_checked
  reload m =
      let (r, s) = x.sudo "nginx" ("-t" ∷ []) m.sys in reload_checked r (record m { sys = s })

  -- `WriteFile`
  pub write_file : String → Bytes → ℕ → String → String → Exec (Machine S) (Unit {0})
  unfolding operate atomic_write
  write_file path bytes mode owner group =
      operate "WriteFile" path (atomic_write x path bytes mode owner group)

  pub restore : String → Option CanonicalFile → Exec (Machine S) (Unit {0})
  unfolding write_file
  restore path none m = (err (errorf "no canonical content for %q" (text path nil)), m)
  restore path (some f) m = write_file path f.content f.mode f.owner f.group m

  -- The methods of `Real`.
  unfoldable pub perform_real : Op → Exec (Machine S) (Unit {0})
  unfolding operate write_file reload restore chowned
  perform_real (Op.write_file path bytes mode owner group) = write_file path bytes mode owner group
  perform_real (Op.chmod path mode) =
      operate "Chmod" (joined (path ∷ mode_text mode ∷ [])) (x.chmod path mode)
  perform_real (Op.chown path owner group) =
      operate "Chown" (joined (path ∷ owner_text owner group ∷ []))
        (x.sudo "chown" (owner_text owner group ∷ path ∷ []))
  perform_real (Op.remove path) = operate "Remove" path (x.remove path)
  perform_real (Op.mkdir_all path mode owner group) =
      operate "MkdirAll" path (x.mkdir_all path mode >> chowned x path owner group)
  perform_real (Op.systemctl action unit) =
      let args = if unit == "" then action ∷ [] else action ∷ unit ∷ [] in
      operate "Systemctl" (joined args) (x.sudo "systemctl" args)
  perform_real Op.nginx_reload = reload
  perform_real (Op.restore_file path) = restore path (canonical files path)
  perform_real (Op.run_mutation cmd args) =
      operate "RunMutation" (joined (cmd ∷ args)) (x.sudo cmd args)

  -- `NewExecutor`, with the observing half of `Real`.
  unfoldable pub real : Observer (Machine S) → Executor (Machine S)
  unfolding perform_real
  real observer = record { observer = observer; perform = perform_real }
