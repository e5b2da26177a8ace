-- ===== src/ExternalClient/Client/Routing.antt =====
-- Which connection has which module.
use module_gateway.Common.{
  ℕ, suc, ◌≤◌, Bool, false, ◌||◌, List, [], ◌∷◌, ◌++◌, Option, none, some, ◌==◌, if◌then◌else◌, ◌≡◌,
  refl, ap, arith, Option-cases, inl, inr,
}
use module_gateway.Common.Dict.{Dict, find, contains, try_emplace}
use module_gateway.Common.Dict.Laws.{find-try_emplace, contains-assign}
use module_gateway.Common.Dict.Numbers.{number_eq}
use module_gateway.Structures.Module.{ModuleLibraryHandler}
use module_gateway.ExternalClient.Connection.{Channel, ExternalConnection, is_module_supported}
use module_gateway.ExternalClient.Client.{
  ExternalClient, init_error_aggregators, new_connection, map_modules, init_connections,
}
use module_gateway.ExternalClient.Client.Draining.{IsRouted}

abbrev pub has_module : ℕ → List ℕ → Bool
has_module n [] = false
has_module n (k ∷ ks) = k == n || has_module n ks

-- The position of the first connection whose settings list the module.
abbrev pub first_with : ℕ → ℕ → List (List ℕ × Channel) → Option ℕ
first_with n i [] = none
first_with n i ((modules, channel) ∷ settings) =
    if has_module n modules then some i else first_with n (suc i) settings

contains-init_error_aggregators :
    (libraries : ℕ → ModuleLibraryHandler) (n : ℕ) (ns : List ℕ)
    → contains number_eq n (init_error_aggregators libraries ns) ≡ has_module n ns
unfolding init_error_aggregators contains
contains-init_error_aggregators libraries n [] = refl
contains-init_error_aggregators libraries n (k ∷ ks) = ground (
  arith,
  contains-assign number_eq n k (record { library = libraries k; devices = [] })
      (init_error_aggregators libraries ks),
  contains-init_error_aggregators libraries n ks,
)

find-map_modules :
    (i n : ℕ) (ns : List ℕ) (d : Dict ℕ ℕ)
    → find number_eq n (map_modules i ns d) ≡ elim (find number_eq n d) [
      | none ↦ if has_module n ns then some i else none
      | some j ↦ some j
    ]
unfolding map_modules
find-map_modules i n [] d = elim (Option-cases (find number_eq n d)) [
  | inl e ↦ ground (arith, e)
  | inr (j, e) ↦ ground (arith, e)
]
find-map_modules i n (k ∷ ks) d = ground (
  arith,
  find-map_modules i n ks (try_emplace number_eq k i d),
  find-try_emplace number_eq n k i d,
)

find-append :
    (j i : ℕ) (k : ExternalConnection) (d : Dict ℕ ExternalConnection)
    → find number_eq j (d ++ (i, k) ∷ [])
      ≡ elim (find number_eq j d) [ none ↦ if i == j then some k else none | some v ↦ some v ]
unfolding find
find-append j i k [] = refl
find-append j i k ((l, v) ∷ d) = ground (arith, find-append j i k d)

find-init_connections :
    (libraries : ℕ → ModuleLibraryHandler) (n i : ℕ) (settings : List (List ℕ × Channel))
    (c : ExternalClient)
    → find number_eq n (init_connections libraries i settings c).connection_map
      ≡ elim (find number_eq n c.connection_map) [
        | none ↦ first_with n i settings
        | some j ↦ some j
      ]
unfolding init_connections
find-init_connections libraries n i [] c = elim (Option-cases (find number_eq n c.connection_map)) [
  | inl e ↦ ground (arith, e)
  | inr (j, e) ↦ ground (arith, e)
]
find-init_connections libraries n i ((modules, channel) ∷ settings) c =
    let after = record c {
      connections = c.connections ++ (i, new_connection libraries modules channel) ∷ [];
      connection_map = map_modules i modules c.connection_map;
    } in
    ground (
      arith,
      find-init_connections libraries n (suc i) settings after,
      find-map_modules i n modules c.connection_map,
    )

-- Every module of the map leads to a connection that supports it, and the positions from `i` on are
-- free.
record Routes (i : ℕ) (c : ExternalClient) : Type 0 where
  free : (j : ℕ) → i ≤ j → find number_eq j c.connections ≡ none
  routed : (j : ℕ) → IsRouted j c

add_connection-Routes :
    (libraries : ℕ → ModuleLibraryHandler) (i : ℕ) (modules : List ℕ) (channel : Channel)
    (c : ExternalClient)
    → Routes i c
    → Routes (suc i) (record c {
      connections = c.connections ++ (i, new_connection libraries modules channel) ∷ [];
      connection_map = map_modules i modules c.connection_map;
    })
unfolding new_connection is_module_supported
add_connection-Routes libraries i modules channel c r = record {
  free = λ j h.
      let before = r.free j (omega arith) in
      ground
        (arith, before, find-append j i (new_connection libraries modules channel) c.connections);
  routed = λ j n h.
      let added = find-append j i (new_connection libraries modules channel) c.connections in
      let mapped = find-map_modules i n modules c.connection_map in
      let own = contains-init_error_aggregators libraries n modules in
      elim (Option-cases (find number_eq n c.connection_map)) [
        | inl e ↦ ground (arith, e, h, mapped, added, own, r.free j)
        | inr (l, e) ↦ ground (arith, e, h, mapped, added, r.routed j n)
      ];
}

init_connections-Routes :
    (libraries : ℕ → ModuleLibraryHandler) (i : ℕ) (settings : List (List ℕ × Channel))
    (c : ExternalClient)
    → Routes i c
    → (j : ℕ) → IsRouted j (init_connections libraries i settings c)
unfolding init_connections
init_connections-Routes libraries i [] c r = r.routed
init_connections-Routes libraries i ((modules, channel) ∷ settings) c r =
    init_connections-Routes libraries (suc i) settings _
      (add_connection-Routes libraries i modules channel c r)

-- With no connection before, a module leads to the first connection whose settings list it, and to
-- none if no settings do; and a connection that a module leads to supports it.
pub init_connections-routes :
    (libraries : ℕ → ModuleLibraryHandler) (settings : List (List ℕ × Channel)) (c : ExternalClient)
    (n j : ℕ)
    → c.connections ≡ []
    → c.connection_map ≡ []
    → let started = init_connections libraries 0 settings c in
      (find number_eq n started.connection_map ≡ first_with n 0 settings) × IsRouted j started
unfolding find
init_connections-routes libraries settings c n j none_yet unmapped = (
  ground (arith, find-init_connections libraries n 0 settings c, ap (find number_eq n) unmapped),
  init_connections-Routes libraries 0 settings c
      (record {
        free = λ k h. ap (find number_eq k) none_yet;
        routed = λ k m h. absurd (ground (arith, ap (find number_eq m) unmapped, h));
      })
      j,
)
