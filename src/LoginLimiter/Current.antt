-- ===== src/LoginLimiter/Current.antt =====
-- What the limiter answers depends only on the entry that is current at each key, `entry_for`.
use my_tech_pulse.Base.{
  Every, Option, none, some, lookup, refl, Bool-cases, inl, inr, ◌+◌, ◌-◌, ◌≤◌, ◌<◌, ◌≡◌, not,
  arith, ltb, if◌then◌else◌, Text, text_eq, Assoc, insert, remove, retain, keep_if, IsMap,
  lookup-insert, lookup-remove, lookup-retain, Time,
}
use my_tech_pulse.Unicode.{Unicode}
use my_tech_pulse.LoginLimiter.{
  ip_max_begins, LimitEntry, LoginLimiter, fresh, is_over, entry_for, ip_wait, account_key,
  account_wait, limiter_window, ip_max_failures,
}

-- The entry as it reads at a later time.
abbrev pub refresh : Time → LimitEntry → LimitEntry
refresh now e = if is_over now e then fresh now else e

pub entry_for-insert :
    (k key : Text) (e : LimitEntry) (m : Assoc LimitEntry) (now : Time)
    → entry_for (insert key e m) k now
      ≡ (if text_eq key k then refresh now e else entry_for m k now)
unfolding entry_for
entry_for-insert k key e m now = ground (arith, lookup-insert k key e m)

pub entry_for-remove :
    (k key : Text) (m : Assoc LimitEntry) (now : Time)
    → entry_for (remove key m) k now ≡ (if text_eq key k then fresh now else entry_for m k now)
unfolding entry_for
entry_for-remove k key m now = ground (arith, lookup-remove k key m)

-- What is dropped as over would be replaced by a fresh entry at any later time.
pub entry_for-retain :
    (k : Text) (m : Assoc LimitEntry) (now later : Time)
    → IsMap m
    → now ≤ later
    → entry_for (retain (λ e. not (is_over now e)) m) k later ≡ entry_for m k later
unfolding entry_for keep_if
entry_for-retain k m now later h le = ground (arith, lookup-retain k (λ e. not (is_over now e)) m)

pub ip_wait-entry_for :
    (l : LoginLimiter) (ip : Text) (now : Time)
    → ip_wait l ip now ≡ (
        if ltb (entry_for l.ips ip now).failures ip_max_failures
        then 0
        else (entry_for l.ips ip now).window_start + limiter_window - now)
unfolding ip_wait entry_for
ip_wait-entry_for l ip now = ground arith

pub account_wait-entry_for :
    ⦃u : Unicode⦄ (l : LoginLimiter) (username : Text) (now : Time)
    → account_wait l username now
      ≡ (entry_for l.accounts (account_key username) now).lock_until - now
unfolding account_wait entry_for
account_wait-entry_for l username now = ground arith

-- Every map has each key once, no account is past level 10, and an address is never locked by its
-- entry nor counted past sixty begins.
pub record IsValid (l : LoginLimiter) : Type 0 where
  pub accounts : IsMap l.accounts
  pub ips : IsMap l.ips
  pub begins : IsMap l.begins
  pub levels : Every (λ e. e.level ≤ 10) l.accounts
  pub begun : Every (λ e. (e.lock_until ≡ 0) × (e.failures ≤ ip_max_begins)) l.begins

pub entry_for-Every :
    (P : LimitEntry → Type 0) (m : Assoc LimitEntry) (k : Text) (now : Time)
    → P (fresh now)
    → Every P m
    → P (entry_for m k now)
unfolding entry_for
entry_for-Every P m k now f h = go (lookup k m) refl
  where
    go :
        (o : Option LimitEntry)
        → lookup k m ≡ o
        → P (elim o [ none ↦ fresh now | some e ↦ refresh now e ])
    go none e = f
    go (some e) q = elim (Bool-cases (is_over now e)) [
      | inl over ↦ rw over f
      | inr live ↦ rw live (h k e q)
    ]

-- Inside its window an entry is the current one.
pub entry_for_live :
    (k : Text) (m : Assoc LimitEntry) (e : LimitEntry) (now : Time)
    → lookup k m ≡ some e
    → now < e.window_start + limiter_window
    → entry_for m k now ≡ e
unfolding entry_for
entry_for_live k m e now found inside = ground arith
