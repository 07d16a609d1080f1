-- ===== src/Process/Traffic.antt =====
-- What a packet and a row of /proc/<pid>/stat add to a process, and whose name it bears.
use capture.Prelude.{
  ℕ, ◌+◌, ◌*◌, ◌^◌, ◌≤◌, ◌<◌, ◌≡◌, false, [], ◌∷◌, none, some, arith, ◌==◌, if◌then◌else◌,
}
use capture.Text.{Str, to_string}
use capture.Scan.{nonzero, num}
use capture.Os.{Os}
use capture.Process.{parse_user_and_group, percent}
use capture.ProcessFields.{CapProcess, add_times, quotient, zero_percent}

-- A process whose user has a name and whose group has none loses the name of its user: the number
-- of the group is written to the field `user`, and `group` keeps its old value.
pub missing_group_overwrites_user :
    (os : Os) (p : CapProcess) (name : Str)
    → os.user_name p.uid ≡ some name
    → os.group_name p.gid ≡ none
    → ((parse_user_and_group os p).user ≡ to_string p.gid)
      × ((parse_user_and_group os p).group ≡ p.group)
unfolding parse_user_and_group
missing_group_overwrites_user os p name u g = ground arith

-- Over two readings of a process whose times do not fall and are less than 2 ^ 64 / 100, `deltaCpu`
-- is the time in between, and the percentage is that times 100 over the total, unless the total is
-- 0.
pub cpu_between_readings :
    (p : CapProcess) (u1 s1 u2 s2 : ℕ) (total : ℕ)
    → u1 + s1 ≤ u2 + s2
    → (u2 + s2) * 100 < 2 ^ 64
    → let q = add_times (record { values = num u1 ∷ num s1 ∷ []; ended = false }) p in
      let r = add_times (record { values = num u2 ∷ num s2 ∷ []; ended = false }) q in
      (r.delta_cpu + u1 + s1 ≡ u2 + s2)
      × (r.cpu ≡ u2 + s2)
      × (percent r.delta_cpu total
          ≡ (if total == 0 then zero_percent else quotient (r.delta_cpu * 100) total))
unfolding add_times percent nonzero
cpu_between_readings p u1 s1 u2 s2 total h k = ground arith
