-- ===== src/Sync/Snapshot.antt =====
-- internal/sync/checkpoint/snapshot.go: the history in a checkpoint, its repeated texts as places in
-- tables.
pub mod RoundTrip
pub mod Payload
pub mod File
use remnix.Prelude.{
  String, ℕ, zero, suc, Bool, true, false, not, ◌&&◌, ◌||◌, List, [], ◌∷◌, ◌++◌, Option, none, some,
  map, ◌==◌, if◌then◌else◌, arith, ◌≡◌, refl, sym, ap, ◌∙◌, subst, Bool-cases, Option-cases, inl,
  inr, eq_iff, In, ◌⊎◌, ◌↔◌, ◌≢◌, All, length, ltb, leb, eqb, ◌+◌, ◌-◌, ◌≤◌, ◌<◌, get_elem?,
}
use remnix.Prelude.Int.{ℤ, pos, negsuc, eqb_ℤ}
use remnix.Prelude.Dict.{Dict, lookup, insert}
use remnix.Prelude.Result.{Result, ok, err, failed, ◌>>=◌}
use remnix.History.Entry.{Entry}

abbrev pub snapshot_version : ℤ
snapshot_version = pos 2

pub record CompactRow : Type 0 where
  pub id : String
  pub command : String
  pub start_ms : ℤ
  pub end_ms : Option ℤ
  pub duration_ms : Option ℤ
  pub exit_status : Option ℤ
  pub cwd : String
  pub session_idx : ℤ
  pub host_idx : ℤ
  pub device_idx : ℤ
  pub shell_idx : ℤ
  pub deleted : Bool
  pub origin_dev_idx : ℤ
  pub origin_seq : Option ℤ
  pub created_ms : ℤ

pub record Snapshot : Type 0 where
  pub version : ℤ
  pub sessions : List String
  pub hosts : List String
  pub devices : List String
  pub shells : List String
  pub rows : List CompactRow

pub record Intern : Type 0 where
  pub index : Dict ℕ
  pub list : List String

unfoldable pub new_intern : Intern
new_intern = record { index = ("", 0) ∷ []; list = "" ∷ [] }

-- `add`: the place of the text, and the table after it.
unfoldable pub add : String → Intern → ℕ × Intern
add s t = elim (lookup s t.index) [
  | some i ↦ (i, t)
  | none ↦
      (length t.list, record { index = insert s (length t.list) t.index; list = t.list ++ s ∷ [] })
]

-- The four tables of `encodeSnapshot`.
pub record Tables : Type 0 where
  pub sessions : Intern
  pub hosts : Intern
  pub devices : Intern
  pub shells : Intern

-- `UnixMilli` of the zero time.
abbrev pub zero_time : ℤ
zero_time = negsuc 62135596799999

abbrev pub created_ms_of : Option ℤ → ℤ
created_ms_of none = zero_time
created_ms_of (some t) = t

abbrev pub time_of : ℤ → Option ℤ
time_of ms = if eqb_ℤ ms zero_time then none else some ms

-- The body of the loop of `encodeSnapshot`.
unfoldable pub encode_row : Entry → Tables → CompactRow × Tables
unfolding add
encode_row e t =
    let session = add e.session_id t.sessions in
    let host = add e.hostname t.hosts in
    let dev = add e.device_id t.devices in
    let shell = add e.shell t.shells in
    let origin = add e.origin_device_id dev.1 in
    (
      record {
        id = e.id;
        command = e.command;
        start_ms = e.start_ts;
        end_ms = e.end_ts;
        duration_ms = e.duration_ms;
        exit_status = e.exit_status;
        cwd = e.cwd;
        session_idx = pos session.0;
        host_idx = pos host.0;
        device_idx = pos dev.0;
        shell_idx = pos shell.0;
        deleted = e.deleted;
        origin_dev_idx = pos origin.0;
        origin_seq = e.origin_seq;
        created_ms = created_ms_of e.created_at;
      },
      record { sessions = session.1; hosts = host.1; devices = origin.1; shells = shell.1 },
    )

unfoldable pub encode_rows : List Entry → Tables → List CompactRow × Tables
unfolding encode_row
encode_rows [] t = ([], t)
encode_rows (e ∷ es) t =
    let first = encode_row e t in let rest = encode_rows es first.1 in (first.0 ∷ rest.0, rest.1)

abbrev pub new_tables : Tables
new_tables = record {
  sessions = new_intern;
  hosts = new_intern;
  devices = new_intern;
  shells = new_intern;
}

unfoldable pub encode_snapshot : List Entry → Snapshot
unfolding encode_rows new_intern
encode_snapshot entries =
    let r = encode_rows entries new_tables in
    record {
      version = snapshot_version;
      sessions = r.1.sessions.list;
      hosts = r.1.hosts.list;
      devices = r.1.devices.list;
      shells = r.1.shells.list;
      rows = r.0;
    }

abbrev in_range : Option String → Result String
in_range none = err (failed "snapshot intern index")
in_range (some s) = ok s

-- The closure `at` of `entries`.
unfoldable pub at : List String → ℤ → Result String
at list (pos i) = in_range (get_elem? list i)
at list (negsuc i) = err (failed "snapshot intern index")

module _ (s : Snapshot) where
  unfoldable pub decode_row : CompactRow → Result Entry
  unfolding at
  decode_row r = do
    session ← at s.sessions r.session_idx
    host ← at s.hosts r.host_idx
    dev ← at s.devices r.device_idx
    origin ← at s.devices r.origin_dev_idx
    shell ← at s.shells r.shell_idx
    ok (record {
      id = r.id;
      command = r.command;
      start_ts = r.start_ms;
      end_ts = r.end_ms;
      duration_ms = r.duration_ms;
      exit_status = r.exit_status;
      cwd = r.cwd;
      session_id = session;
      hostname = host;
      device_id = dev;
      shell = shell;
      deleted = r.deleted;
      origin_device_id = origin;
      origin_seq = r.origin_seq;
      created_at = time_of r.created_ms;
    })

  unfoldable pub decode_rows : List CompactRow → Result (List Entry)
  unfolding decode_row
  decode_rows [] = ok []
  decode_rows (r ∷ rows) = do e ← decode_row r; es ← decode_rows rows; ok (e ∷ es)

-- `entries`
unfoldable pub entries : Snapshot → Result (List Entry)
unfolding decode_rows
entries s = decode_rows s s.rows
