-- ===== src/Socket/Counters.antt =====
-- The per-IP counters of backend/internal/ws/handler.go: what acquireIP and releaseIP, the
-- request that they admit and a connection's registration and teardown do to them.
use magic_webb.Base.{
  ℕ, ◌+◌, ◌-◌, ◌≤◌, ◌≡◌, refl, sym, ap, subst, true, false, Option, none, some, List, [], ◌∷◌, ◌++◌,
  Bytes, bytes_eq, nat_eq, bytes_eqb, bytes_eqb_iff, arith, GoMap, Unique, lookup, insert, delete,
  lookup-insert, lookup-delete, insert-Unique, delete-Unique, if◌then◌else◌,
}
use magic_webb.Socket.{
  Connection, Handler, or_zero, acquire_ip, release_counter, release_ip, admit, ws_per_ip_limit,
}
use magic_webb.Socket.Pump.{new_connection, tear_down}

-- How often an IP stands in a list, and among the connections.
abbrev pub occurrences : Bytes → List Bytes → ℕ
occurrences ip [] = 0
occurrences ip (a ∷ waiting) = (if bytes_eqb a ip then 1 else 0) + occurrences ip waiting

abbrev pub connected : Bytes → GoMap ℕ Connection → ℕ
connected ip [] = 0
connected ip ((id, c) ∷ conns) = (if bytes_eqb c.ip ip then 1 else 0) + connected ip conns

-- The slots are counted: those of the requests that wait for their upgrade, and the connections'.
pub record Counted (h : Handler) (waiting : List Bytes) : Type 0 where
  pub unique : Unique h.conns
  pub exact :
      (ip : Bytes)
      → or_zero (lookup ip h.ip_counters) ≡ occurrences ip waiting + connected ip h.conns
  pub capped : (ip : Bytes) → or_zero (lookup ip h.ip_counters) ≤ ws_per_ip_limit

acquire-counter :
    (ip j : Bytes) (h : Handler)
    → or_zero (lookup j (acquire_ip ip h).0.ip_counters)
      ≡ (if (acquire_ip ip h).1 then (if bytes_eqb ip j then 1 else 0) else 0)
        + or_zero (lookup j h.ip_counters)
unfolding acquire_ip
acquire-counter ip j h =
    let cnt = or_zero (lookup ip h.ip_counters) in
    ground (
      arith,
      bytes_eqb_iff ip j,
      lookup-insert ip j (cnt + 1) h.ip_counters,
      lookup-insert ip j cnt h.ip_counters,
      ap (λ i. lookup i h.ip_counters),
    )

released :
    (ip j : Bytes) (counters : GoMap Bytes ℕ) (o : Option ℕ)
    → lookup ip counters ≡ o
    → or_zero (lookup j (release_counter ip o counters))
      ≡ or_zero (lookup j counters) - (if bytes_eqb ip j then 1 else 0)
released ip j counters none e = ground (arith, bytes_eqb_iff ip j, ap (λ i. lookup i counters))
released ip j counters (some n) e = ground (
  arith,
  bytes_eqb_iff ip j,
  lookup-insert ip j (n - 1) counters,
  lookup-delete ip j counters,
  ap (λ i. lookup i counters),
)

release-counter :
    (ip j : Bytes) (h : Handler)
    → or_zero (lookup j (release_ip ip h).ip_counters)
      ≡ or_zero (lookup j h.ip_counters) - (if bytes_eqb ip j then 1 else 0)
unfolding release_ip
release-counter ip j h = released ip j h.ip_counters (lookup ip h.ip_counters) refl

admit-conns : (ip : Bytes) (h : Handler) → (admit ip h).0.conns ≡ h.conns
unfolding admit acquire_ip release_ip
admit-conns ip h = ground arith

admit-counter :
    (ip j : Bytes) (h : Handler)
    → or_zero (lookup j (admit ip h).0.ip_counters)
      ≡ (if (admit ip h).1 then (if bytes_eqb ip j then 1 else 0) else 0)
        + or_zero (lookup j h.ip_counters)
unfolding admit
admit-counter ip j h =
    let h' = record (acquire_ip ip h).0 {
      conns_rejected_global = (acquire_ip ip h).0.conns_rejected_global + 1;
    } in
    ground (arith, acquire-counter ip j h, release-counter ip j h')

-- A granted request was below the cap.
admit-capped :
    (ip : Bytes) (h : Handler)
    → (admit ip h).1 ≡ true
    → or_zero (lookup ip h.ip_counters) + 1 ≤ ws_per_ip_limit
unfolding admit acquire_ip
admit-capped ip h e = ground arith

connected-insert :
    (ip : Bytes) (id : ℕ) (c : Connection) (conns : GoMap ℕ Connection)
    → lookup id conns ≡ none
    → connected ip (insert id c conns) ≡ (if bytes_eqb c.ip ip then 1 else 0) + connected ip conns
unfolding lookup insert
connected-insert ip id c [] e = refl
connected-insert ip id c ((j, d) ∷ conns) e = ground (arith, connected-insert ip id c conns)

connected-delete_absent :
    (ip : Bytes) (id : ℕ) (conns : GoMap ℕ Connection)
    → lookup id conns ≡ none
    → connected ip (delete id conns) ≡ connected ip conns
unfolding lookup delete
connected-delete_absent ip id [] e = refl
connected-delete_absent ip id ((j, d) ∷ conns) e =
    ground (arith, connected-delete_absent ip id conns)

connected-delete :
    (ip : Bytes) (id : ℕ) (c : Connection) (conns : GoMap ℕ Connection)
    → Unique conns
    → lookup id conns ≡ some c
    → connected ip conns ≡ (if bytes_eqb c.ip ip then 1 else 0) + connected ip (delete id conns)
unfolding lookup delete
connected-delete ip id c [] u e = grind arith
connected-delete ip id c ((j, d) ∷ conns) (h, u) e = ground (
  arith,
  ap (λ i. lookup i conns),
  ap (λ a. bytes_eqb (Connection.ip a) ip),
  connected-delete ip id c conns u,
  connected-delete_absent ip id conns,
)

occurrences-remove :
    (ip a : Bytes) (us vs : List Bytes)
    → occurrences ip (us ++ a ∷ vs) ≡ (if bytes_eqb a ip then 1 else 0) + occurrences ip (us ++ vs)
occurrences-remove ip a [] vs = refl
occurrences-remove ip a (b ∷ us) vs = omega (arith, occurrences-remove ip a us vs)

pub granted-Counted :
    (ip : Bytes) (h : Handler) (waiting : List Bytes)
    → Counted h waiting
    → (admit ip h).1 ≡ true
    → Counted (admit ip h).0 (ip ∷ waiting)
granted-Counted ip h waiting k e =
    let same = admit-conns ip h in
    record {
      unique = subst Unique (sym same) k.unique;
      exact = λ j. grind (arith, admit-counter ip j h, k.exact j, ap (connected j) same);
      capped = λ j. ground (
        arith,
        admit-counter ip j h,
        k.capped j,
        admit-capped ip h,
        bytes_eqb_iff ip j,
        ap (λ i. lookup i h.ip_counters),
      );
    }

pub refused-Counted :
    (ip : Bytes) (h : Handler) (waiting : List Bytes)
    → Counted h waiting
    → (admit ip h).1 ≡ false
    → Counted (admit ip h).0 waiting
refused-Counted ip h waiting k e =
    let same = admit-conns ip h in
    record {
      unique = subst Unique (sym same) k.unique;
      exact = λ j. grind (arith, admit-counter ip j h, k.exact j, ap (connected j) same);
      capped = λ j. grind (arith, admit-counter ip j h, k.capped j);
    }

pub fails-Counted :
    (ip : Bytes) (h : Handler) (us vs : List Bytes)
    → Counted h (us ++ ip ∷ vs)
    → Counted (release_ip ip h) (us ++ vs)
unfolding release_ip
fails-Counted ip h us vs k = record {
  unique = k.unique;
  exact = λ j. ground (arith, release-counter ip j h, k.exact j, occurrences-remove j ip us vs);
  capped = λ j. ground (arith, release-counter ip j h, k.capped j);
}

pub upgraded-Counted :
    (id : ℕ) (addr ip : Bytes) (h : Handler) (us vs : List Bytes)
    → Counted h (us ++ ip ∷ vs)
    → lookup id h.conns ≡ none
    → Counted
        (record h {
          conns = insert id (new_connection addr ip) h.conns;
          conn_count = h.conn_count + 1;
        })
        (us ++ vs)
unfolding new_connection
upgraded-Counted id addr ip h us vs k e =
    let c = new_connection addr ip in
    record {
      unique = insert-Unique id c h.conns k.unique;
      exact = λ j.
          ground (arith, k.exact j, occurrences-remove j ip us vs, connected-insert j id c h.conns);
      capped = k.capped;
    }

pub ended-Counted :
    (id : ℕ) (c : Connection) (h : Handler) (waiting : List Bytes)
    → Counted h waiting
    → lookup id h.conns ≡ some c
    → Counted (tear_down id (some c) h) waiting
unfolding release_ip
ended-Counted id c h waiting k e = record {
  unique = delete-Unique id h.conns k.unique;
  exact = λ j.
      ground (arith, release-counter c.ip j h, k.exact j, connected-delete j id c h.conns k.unique);
  capped = λ j. ground (arith, release-counter c.ip j h, k.capped j);
}
