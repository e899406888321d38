-- ===== src/Store/SweepLease/Exclusion.antt =====
-- apps/api/src/store/sweep-guards.ts: while a lease lives, no other process gets it, whatever
-- statements the processes send and in whatever order.
use i_code_host_pro.Prelude.{
  ℕ, ◌+◌, ◌≤◌, ◌<◌, ◌≡◌, ◌≢◌, refl, true, false, none, some, List, [], ◌∷◌, ==_refl, arith, All,
  ◌⊎◌, ℕ_discrete, ◌==◌, if◌then◌else◌,
}
use i_code_host_pro.Store.SweepLease.{
  Lease, find_lease, Statement, steal, create, release, exec, exec_steal, exec_create, exec_release,
  Faults, acquire_sweep_lease, sweep_lease_ttl_ms,
}

-- The name is leased to the holder until the instant.
abbrev pub IsHeld : ℕ → ℕ → ℕ → List Lease → Type 0
IsHeld name holder until ls =
    find_lease name ls ≡ some (record { name = name; holder = holder; expires_at = until })

-- The statement is sent no later than `until`, and does not release the holder's own lease.
abbrev pub IsWithin : ℕ → ℕ → ℕ → Statement → Type 0
IsWithin name holder until (steal n token now) = now ≤ until
IsWithin name holder until (create n token now) = Unit
IsWithin name holder until (release n h) = (n ≢ name) ⊎ (h ≢ holder)

exec_steal-IsHeld :
    (name holder until n token now : ℕ) (ls : List Lease)
    → IsHeld name holder until ls
    → now ≤ until
    → IsHeld name holder until (exec_steal n token now ls).0
unfolding exec_steal find_lease
exec_steal-IsHeld name holder until n token now [] h w = h
exec_steal-IsHeld name holder until n token now (l ∷ ls) h w =
    ground (arith, exec_steal-IsHeld name holder until n token now ls)

exec_release-IsHeld :
    (name holder until n k : ℕ) (ls : List Lease)
    → IsHeld name holder until ls
    → (n ≢ name) ⊎ (k ≢ holder)
    → IsHeld name holder until (exec_release n k ls)
unfolding exec_release find_lease
exec_release-IsHeld name holder until n k [] h w = h
exec_release-IsHeld name holder until n k (l ∷ ls) h w =
    ground (arith, exec_release-IsHeld name holder until n k ls)

exec_create-IsHeld :
    (name holder until n token now : ℕ) (ls : List Lease)
    → IsHeld name holder until ls
    → IsHeld name holder until (exec_create n token now ls).0
unfolding exec_create find_lease
exec_create-IsHeld name holder until n token now ls h = elim (ℕ_discrete n name) [
  | yes same ↦ rw same (ground arith)
  | no other ↦ ground arith
]

exec-IsHeld :
    (name holder until : ℕ) (s : Statement) (ls : List Lease)
    → IsHeld name holder until ls
    → IsWithin name holder until s
    → IsHeld name holder until (exec s ls).0
unfolding exec
exec-IsHeld name holder until (steal n token now) ls h w =
    exec_steal-IsHeld name holder until n token now ls h w
exec-IsHeld name holder until (create n token now) ls h w =
    exec_create-IsHeld name holder until n token now ls h
exec-IsHeld name holder until (release n k) ls h w =
    exec_release-IsHeld name holder until n k ls h w

-- What a list of statements does to the table.
unfoldable pub exec_all : List Statement → List Lease → List Lease
exec_all [] ls = ls
exec_all (s ∷ ss) ls = exec_all ss (exec s ls).0

exec_all-IsHeld :
    (name holder until : ℕ) (ss : List Statement) (ls : List Lease)
    → IsHeld name holder until ls
    → All (IsWithin name holder until) ss
    → IsHeld name holder until (exec_all ss ls)
unfolding exec_all
exec_all-IsHeld name holder until [] ls h w = h
exec_all-IsHeld name holder until (s ∷ ss) ls h w =
    exec_all-IsHeld name holder until ss (exec s ls).0 (exec-IsHeld name holder until s ls h w.0)
      w.1

exec_steal_held :
    (name holder until token now : ℕ) (ls : List Lease)
    → IsHeld name holder until ls
    → now ≤ until
    → (exec_steal name token now ls).1 ≡ false
unfolding exec_steal find_lease
exec_steal_held name holder until token now [] h w = refl
exec_steal_held name holder until token now (l ∷ ls) h w =
    ground (arith, exec_steal_held name holder until token now ls)

exec_steal_expired :
    (name holder until token now : ℕ) (ls : List Lease)
    → IsHeld name holder until ls
    → until < now
    → (exec_steal name token now ls).1 ≡ true
unfolding exec_steal find_lease
exec_steal_expired name holder until token now [] h w = absurd (cc)
exec_steal_expired name holder until token now (l ∷ ls) h w =
    ground (arith, exec_steal_expired name holder until token now ls)

exec_steal_done :
    (name token now : ℕ) (ls : List Lease)
    → (exec_steal name token now ls).1 ≡ true
    → IsHeld name token (now + sweep_lease_ttl_ms) (exec_steal name token now ls).0
unfolding exec_steal find_lease
exec_steal_done name token now [] h = absurd (cc)
exec_steal_done name token now (l ∷ ls) h =
    ground (arith, exec_steal_done name token now ls, ==_refl name)

exec_steal_at :
    (name token now other : ℕ) (ls : List Lease)
    → (exec_steal name token now ls).1 ≡ true
    → find_lease other (exec_steal name token now ls).0 ≡ (
        if other == name
        then some (record { name = name; holder = token; expires_at = now + sweep_lease_ttl_ms })
        else find_lease other ls)
unfolding exec_steal find_lease
exec_steal_at name token now other [] h = absurd (cc)
exec_steal_at name token now other (l ∷ ls) h =
    ground (arith, exec_steal_at name token now other ls)

exec_create_done :
    (name token now : ℕ) (ls : List Lease)
    → (exec_create name token now ls).1 ≡ true
    → IsHeld name token (now + sweep_lease_ttl_ms) (exec_create name token now ls).0
unfolding exec_create find_lease
exec_create_done name token now ls h = ground (arith, ==_refl name)

module _ (faults : Faults) (others others' : List Statement) (name token now : ℕ)
    (ls : List Lease) where
  -- While a lease lives, an acquisition of its name by any process fails, and the lease stays,
  -- whichever queries fail and whatever steals, creations and releases other processes send
  -- meanwhile, if no steal comes after its end and no release is the holder's own.
  pub acquire_sweep_lease_excluded :
      (holder until : ℕ)
      → IsHeld name holder until ls
      → now ≤ until
      → All (IsWithin name holder until) others
      → All (IsWithin name holder until) others'
      → let (ls', got) =
          acquire_sweep_lease faults (exec_all others) (exec_all others') name token now ls in
        (got ≡ none) × IsHeld name holder until ls'
  unfolding acquire_sweep_lease exec
  acquire_sweep_lease_excluded holder until held w o o' =
      let kept = exec_steal-IsHeld name holder until name token now ls held w in
      ground (
        arith,
        exec_steal_held name holder until token now ls held w,
        kept,
        exec_all-IsHeld name holder until others (exec_steal name token now ls).0 kept o,
      )

  -- An acquisition that succeeds returns the process's own token, and the table then has the lease
  -- with that token until the time to live after the process's instant.
  acquire_sweep_lease_acquired :
      (got : ℕ) (ls' : List Lease)
      → acquire_sweep_lease faults (exec_all others) (exec_all others') name token now ls
        ≡ (ls', some got)
      → (got ≡ token) × IsHeld name token (now + sweep_lease_ttl_ms) ls'
  unfolding acquire_sweep_lease exec
  acquire_sweep_lease_acquired got ls' h =
      let ls₁ = (exec_steal name token now ls).0 in
      ground (
        arith,
        exec_steal_done name token now ls,
        exec_create_done name token now (exec_all others' (exec_all others ls₁)),
      )

  -- A lease whose end has passed is acquired by the next process that asks for it, if the database
  -- answers its first statement: the process gets its own token, the table then has the lease with
  -- that token until the time to live after the process's instant, and the leases of the other names
  -- are as they were.
  pub acquire_sweep_lease_expired :
      (holder until : ℕ)
      → IsHeld name holder until ls
      → until < now
      → faults.steal_fails ≡ false
      → let (ls', got) =
          acquire_sweep_lease faults (exec_all others) (exec_all others') name token now ls in
        (got ≡ some token)
        × ((other : ℕ)
            → find_lease other ls' ≡ (
                if other == name
                then some
                    (record { name = name; holder = token; expires_at = now + sweep_lease_ttl_ms })
                else find_lease other ls))
  unfolding acquire_sweep_lease exec
  acquire_sweep_lease_expired holder until held over answers =
      let expired = exec_steal_expired name holder until token now ls held over in
      rw (answers, acquire_sweep_lease, expired)
        (refl, λ other. exec_steal_at name token now other ls expired)
