-- ===== src/Attendance.antt =====
-- backend/src/attendance/attendance.service.ts: the days that people worked. Dates are days counted from
-- the epoch, already parsed; the telemetry line of each write is left out.
use Prim.Native.String.{String}
use vfw.Prelude.{
  ℕ, ◌+◌, Bool, true, false, not, ◌&&◌, ◌||◌, Option, none, some, List, [], ◌∷◌, ◌++◌, length, ◌==◌,
  map, leb, ltb, map, leb, ltb, if◌then◌else◌,
}
use vfw.Decimal.{Decimals, zero_amount, of_int}
use vfw.Acl.{AuthUser, can, attendance_view_team}
use vfw.Store.{Db, Env, attendance_corrected}
use vfw.Store.Access.{is_active}
use vfw.Store.Staff.{Account, AttendanceEntry, AttendanceStatus, present, remote}
use vfw.Store.Table.{filter, find_where, modify_where}
use vfw.Store.Audit.{log_action}
use vfw.Store.Call.{
  Call, bad_request, not_found, forbidden, pure, get, put, guard, or_throw, ◌>>=◌, ◌>>◌,
}

-- `UpsertAttendanceDto`, its note trimmed and none where nothing is left.
pub record UpsertDto (D : Type 0) : Type 0 where
  pub user_id : Option ℕ
  pub status : Option AttendanceStatus
  pub hours : Option D
  pub note : Option String

-- `WORKING_STATUSES.includes(status)`
abbrev pub is_working : AttendanceStatus → Bool
is_working present = true
is_working remote = true
is_working _ = false

-- `dto.status ?? PRESENT`
abbrev pub or_present : Option AttendanceStatus → AttendanceStatus
or_present none = present
or_present (some status) = status

module _ {D : Type 0} where
  -- `user.findFirst({ where: { id, deletedAt: null } })`
  unfoldable pub find_person : ℕ → List (Account D) → Option (Account D)
  find_person id [] = none
  find_person id (a ∷ rest) = if a.id == id && not a.deleted then some a else find_person id rest

  -- `subject`
  unfoldable pub subject : Option ℕ → AuthUser → Call D ℕ
  unfolding find_person can
  subject none actor = pure actor.id
  subject (some id) actor = elim (id == actor.id) [
    | true ↦ pure actor.id
    | false ↦
        guard (can attendance_view_team actor) forbidden
        >> (get >>= λ db.
            or_throw not_found (find_person id db.staff.accounts) >>= λ person. pure person.id)
  ]

  -- `userId_date`
  abbrev pub is_day : ℕ → ℕ → AttendanceEntry D → Bool
  is_day user date e = e.user_id == user && e.date == date

  abbrev pub with_attendance : List (AttendanceEntry D) → Db D → Db D
  with_attendance rows db = record db { staff = record db.staff { attendance = rows } }

  -- `record`: a write to the sheet of somebody else is audited.
  unfoldable pub leave_trail : ℕ → AuthUser → Call D (Unit {0})
  unfolding log_action
  leave_trail user actor = elim (user == actor.id) [
    | true ↦ pure tt
    | false ↦ log_action none actor.id attendance_corrected
  ]

  -- `remove`
  unfoldable pub remove : ℕ → Option ℕ → AuthUser → Call D (Unit {0})
  unfolding subject find_where filter leave_trail
  remove date user_id actor = do
    user ← subject user_id actor
    db ← get
    entry ← or_throw not_found (find_where (is_day user date) db.staff.attendance)
    put (with_attendance (filter (λ e. not (is_day user date e)) db.staff.attendance) db)
    leave_trail user actor

module _ ⦃d : Decimals⦄ where
  open d use {Decimal, plus, divided_by, is_negative, gt, to_places}

  -- What `summarise` returns, less the counts by status.
  pub record Summary : Type 0 where
    pub days : ℕ
    pub days_worked : ℕ
    pub hours : Decimal
    pub avg_hours : Decimal

  unfoldable pub total_hours : Decimal → List (AttendanceEntry Decimal) → Decimal
  total_hours acc [] = acc
  total_hours acc (e ∷ rest) = total_hours (plus acc e.hours) rest

  unfoldable pub worked : List (AttendanceEntry Decimal) → ℕ
  worked [] = 0
  worked (e ∷ rest) = (if is_working e.status then 1 else 0) + worked rest

  unfoldable pub summarise : List (AttendanceEntry Decimal) → Summary
  unfolding total_hours worked
  summarise entries =
      let hours = total_hours zero_amount entries in
      record {
        days = length entries;
        days_worked = worked entries;
        hours = to_places 2 hours;
        avg_hours =
            if worked entries == 0
            then zero_amount
            else to_places 2 (to_places 2 (divided_by hours (of_int (worked entries))));
      }

  -- `MAX_HOURS`
  abbrev pub max_hours : Decimal
  max_hours = of_int 24

  -- `resolveHours`
  unfoldable pub resolve_hours : Option Decimal → Call Decimal Decimal
  resolve_hours none = pure zero_amount
  resolve_hours (some hours) =
      guard (not (is_negative hours || gt hours max_hours)) bad_request >> pure (to_places 2 hours)

  -- The day as `upsert` writes it.
  abbrev pub marked :
      UpsertDto Decimal → Decimal → AuthUser → AttendanceEntry Decimal → AttendanceEntry Decimal
  marked dto hours actor e = record e {
    status = or_present dto.status;
    hours = to_places 2 hours;
    note = dto.note;
    updated_by = actor.id;
  }

  abbrev pub new_day :
      Env → ℕ → ℕ → UpsertDto Decimal → Decimal → AuthUser → AttendanceEntry Decimal
  new_day env user date dto hours actor = record {
    user_id = user;
    date = date;
    status = or_present dto.status;
    hours = to_places 2 hours;
    note = dto.note;
    updated_by = actor.id;
    is_test_data = env.test_data_mode;
  }

  -- `upsert`
  unfoldable pub upsert :
      Env → ℕ → UpsertDto Decimal → AuthUser → Call Decimal (AttendanceEntry Decimal)
  unfolding subject resolve_hours find_where modify_where leave_trail
  upsert env date dto actor = do
    user ← subject dto.user_id actor
    hours ← resolve_hours dto.hours
    db ← get
    let rows = db.staff.attendance
    let fresh = new_day env user date dto hours actor
    entry ← elim (find_where (is_day user date) rows) [
      | none ↦ put (with_attendance (rows ++ (fresh ∷ [])) db) >> pure fresh
      | some e ↦
          put (with_attendance (modify_where (is_day user date) (marked dto hours actor) rows) db)
          >> pure (marked dto hours actor e)
    ]
    leave_trail user actor
    pure entry

  -- The month of one person: `entries`, `summary` and `self` of what `list` answers.
  pub record Sheet : Type 0 where
    pub user_id : ℕ
    pub entries : List (AttendanceEntry Decimal)
    pub summary : Summary
    pub self : Bool

  -- The days of a person from one day to before another, which `monthRange` finds for a month.
  abbrev pub days_of : ℕ → ℕ × ℕ → List (AttendanceEntry Decimal) → List (AttendanceEntry Decimal)
  days_of user range = filter (λ e. e.user_id == user && leb range.0 e.date && ltb e.date range.1)

  abbrev pub sheet_of : ℕ × ℕ → AuthUser → List (AttendanceEntry Decimal) → ℕ → Sheet
  sheet_of range actor rows user = record {
    user_id = user;
    entries = days_of user range rows;
    summary = summarise (days_of user range rows);
    self = user == actor.id;
  }

  -- `list`, in the order of the table.
  unfoldable pub list : ℕ × ℕ → Option ℕ → AuthUser → Call Decimal Sheet
  unfolding subject filter summarise
  list range user_id actor = do
    user ← subject user_id actor
    db ← get
    pure (sheet_of range actor db.staff.attendance user)

  -- `team`, in the order of the table.
  unfoldable pub team : ℕ × ℕ → AuthUser → Call Decimal (List Sheet)
  unfolding can filter summarise
  team range actor = do
    guard (can attendance_view_team actor) forbidden
    db ← get
    let users = filter (λ a. not a.deleted && not a.hidden && is_active a.status) db.staff.accounts
    pure (map (λ a. sheet_of range actor db.staff.attendance a.id) users)
