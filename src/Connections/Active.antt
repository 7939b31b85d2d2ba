-- ===== src/Connections/Active.antt =====
-- src/wstangoproc_common/WSThread.cpp: `m_active_connections` stays within `m_connections`.
use web_socket_ds.Base.{
  ◌≡◌, refl, ℕ, Bool, true, false, not, List, [], ◌∷◌, ◌++◌, ◌&&◌, ◌||◌, is_some, nat_beq, arith,
}
use web_socket_ds.Base.Dict.{Dict, lookup, assign, erase, nat_eq}
use web_socket_ds.Connections.{
  Connection, WsThread, member, insert, without, delete_from_active, close_connections,
}

-- The handles of the open connections.
unfoldable pub keys : Dict ℕ Connection → List ℕ
keys [] = []
keys ((h, c) ∷ cs) = h ∷ keys cs

unfoldable pub subset : List ℕ → List ℕ → Bool
subset [] ks = true
subset (h ∷ hs) ks = member h ks && subset hs ks

-- The connections are those of `handles`, and only those are active.
unfoldable pub Tracks : List ℕ → WsThread → Type 0
Tracks handles st =
    (keys st.m_connections ≡ handles) × (subset st.m_active_connections handles ≡ true)

pub lookup-keys : (h : ℕ) (cs : Dict ℕ Connection) → is_some (lookup h cs) ≡ member h (keys cs)
unfolding lookup keys member
lookup-keys h [] = refl
lookup-keys h ((k, c) ∷ cs) = ground (arith, lookup-keys h cs)

member-append : (h k : ℕ) (ks : List ℕ) → member h (ks ++ k ∷ []) ≡ (member h ks || nat_beq k h)
unfolding member
member-append h k [] = ground arith
member-append h k (j ∷ ks) = ground (arith, member-append h k ks)

pub member-insert : (h k : ℕ) (ks : List ℕ) → member h (insert k ks) ≡ (member h ks || nat_beq k h)
unfolding insert
member-insert h k ks = ground (arith, member-append h k ks, nat_eq.beq_iff k h)

pub member-without :
    (h k : ℕ) (ks : List ℕ) → member h (without k ks) ≡ (member h ks && not (nat_beq k h))
unfolding member without
member-without h k [] = refl
member-without h k (j ∷ ks) =
    ground
      (arith, member-without h k ks, nat_eq.beq_iff j k, nat_eq.beq_iff j h, nat_eq.beq_iff k h)

pub keys-assign :
    (h : ℕ) (c : Connection) (cs : Dict ℕ Connection) → keys (assign h c cs) ≡ insert h (keys cs)
unfolding keys assign insert member
keys-assign h c [] = refl
keys-assign h c ((k, d) ∷ cs) = ground (arith, keys-assign h c cs)

pub keys-assign_old :
    (h : ℕ) (c : Connection) (cs : Dict ℕ Connection)
    → member h (keys cs) ≡ true
    → keys (assign h c cs) ≡ keys cs
unfolding insert
keys-assign_old h c cs old = ground (arith, keys-assign h c cs)

pub keys-erase : (h : ℕ) (cs : Dict ℕ Connection) → keys (erase h cs) ≡ without h (keys cs)
unfolding keys erase without
keys-erase h [] = refl
keys-erase h ((k, c) ∷ cs) = ground (arith, keys-erase h cs)

pub subset-insert : (h : ℕ) (hs ks : List ℕ) → subset hs ks ≡ true → subset hs (insert h ks) ≡ true
unfolding subset
subset-insert h [] ks sub = refl
subset-insert h (k ∷ hs) ks sub = ground (arith, subset-insert h hs ks, member-insert k h ks)

subset-append :
    (h : ℕ) (hs ks : List ℕ)
    → subset hs ks ≡ true
    → member h ks ≡ true
    → subset (hs ++ h ∷ []) ks ≡ true
unfolding subset
subset-append h [] ks sub known = ground arith
subset-append h (k ∷ hs) ks sub known = ground (arith, subset-append h hs ks)

pub subset-without :
    (h : ℕ) (hs ks : List ℕ) → subset hs ks ≡ true → subset (without h hs) (without h ks) ≡ true
unfolding subset without
subset-without h [] ks sub = refl
subset-without h (k ∷ hs) ks sub =
    ground (arith, subset-without h hs ks, member-without k h ks, nat_eq.beq_iff h k)

subset-without_left :
    (h : ℕ) (hs ks : List ℕ) → subset hs ks ≡ true → subset (without h hs) ks ≡ true
unfolding subset without
subset-without_left h [] ks sub = refl
subset-without_left h (k ∷ hs) ks sub = ground (arith, subset-without_left h hs ks)

pub without_absent : (h : ℕ) (ks : List ℕ) → member h ks ≡ false → without h ks ≡ ks
unfolding member without
without_absent h [] absent = refl
without_absent h (k ∷ ks) absent = ground (arith, without_absent h ks)

pub delete_from_active-Tracks :
    (handles : List ℕ) (h : ℕ) (st : WsThread)
    → Tracks handles st
    → Tracks handles (delete_from_active h st)
unfolding delete_from_active Tracks
delete_from_active-Tracks handles h st (same, sub) =
    ground (arith, subset-without_left h st.m_active_connections handles)

pub close_connections-Tracks :
    (handles : List ℕ) (hs : List ℕ) (st : WsThread)
    → Tracks handles st
    → Tracks handles (close_connections hs st)
unfolding close_connections
close_connections-Tracks handles [] st good = good
close_connections-Tracks handles (h ∷ hs) st good =
    close_connections-Tracks handles hs (delete_from_active h st)
      (delete_from_active-Tracks handles h st good)

pub subset-insert_left :
    (h : ℕ) (hs ks : List ℕ)
    → subset hs ks ≡ true
    → member h ks ≡ true
    → subset (insert h hs) ks ≡ true
unfolding insert
subset-insert_left h hs ks sub known = ground (arith, subset-append h hs ks)
