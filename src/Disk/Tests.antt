-- ===== src/Disk/Tests.antt =====
-- Runs of the check for free space.
use obacht_agent.Base.{ℕ, ◌<◌, ◌≤◌, ◌≡◌, ◌⊎◌, refl, Bool, true, Option, none, some, []}
use obacht_agent.Base.Int.{pos}
use obacht_agent.Base.Result.{ok, err}
use obacht_agent.Base.Text.{Text}
use obacht_agent.Disk.Check.{
  by_template, by_agent, Statfs, min_free_bytes, free_bytes, ensure_free_at_least, ensure_free, mib,
}
use obacht_agent.Disk.Enough.{ensure_free-refuses, ensure_free-allows}

abbrev runs : Bool
unfolding min_free_bytes free_bytes ensure_free_at_least ensure_free mib
runs = true

abbrev no_number : Text → Option ℕ
no_number v = none

-- 4 GiB and 1 GiB
abbrev half_empty : Statfs
half_empty = record { bsize = 4096; bavail = 1048576 }

abbrev nearly_full : Statfs
nearly_full = record { bsize = 4096; bavail = 262144 }

refused : ensure_free_at_least no_number [] (some half_empty) (mib (pos 8192)) ≡ err by_template
unfolding runs
refused = refl

refused_by_agent : ensure_free no_number [] (some nearly_full) ≡ err by_agent
unfolding runs
refused_by_agent = refl

not_queried : ensure_free no_number [] none ≡ ok tt
unfolding runs
not_queried = refl

ensure_free-refuses_example :
    (free : ℕ) × (free_bytes (some half_empty) ≡ some free)
    × (((free < min_free_bytes no_number [])
          × (mib (pos 8192) ≤ min_free_bytes no_number [])
          × (by_template ≡ by_agent))
        ⊎ ((free < mib (pos 8192))
            × (min_free_bytes no_number [] < mib (pos 8192))
            × (by_template ≡ by_template)))
ensure_free-refuses_example =
    ensure_free-refuses no_number [] (some half_empty) (mib (pos 8192)) by_template refused

allowed : ensure_free_at_least no_number [] (some half_empty) (mib (pos 1024)) ≡ ok tt
unfolding runs
allowed = refl

half_empty_free : free_bytes (some half_empty) ≡ some 4294967296
unfolding runs
half_empty_free = refl

ensure_free-allows_example :
    (min_free_bytes no_number [] ≤ 4294967296) × (mib (pos 1024) ≤ 4294967296) × (0 < 4294967296)
ensure_free-allows_example =
    ensure_free-allows no_number [] half_empty (mib (pos 1024)) 4294967296 allowed half_empty_free
