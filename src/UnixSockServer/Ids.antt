-- ===== src/UnixSockServer/Ids.antt =====
-- The ids of the clients.
use lixs.Base.{
  ℕ, ◌+◌, ◌%◌, ◌^◌, ◌≤◌, ◌<◌, ◌≡◌, ◌∙◌, refl, ap, Bool, false, Option, none, some, ite, arith,
}
use native.Mathlib.Decide.{ℕ_discrete}
use lixs.Base.Key.{nat_key}
use lixs.Base.Map
use lixs.Base.Map.{Map}
use lixs.UnixSockServer.{UnixSockServer, insert_client, inserted, client_dead, callback}

next : (n : ℕ) → n + 1 < 2 ^ 64 → (n + 1) % 2 ^ 64 ≡ n + 1
next n small = omega arith

module _ {C : Type 0} where
  -- No client has an id that is still to be given.
  pub record Fresh (s : UnixSockServer C) : Type 0 where
    pub later : (id : ℕ) → s.next_id ≤ id → Map.find id s.clients ≡ none

  insert_client-fresh :
      (id : ℕ) (client : C) (m : Map ℕ C)
      → Map.find id m ≡ none
      → insert_client id client m ≡ Map.put id client m
  insert_client-fresh id client m e = rw (e, insert_client) refl

  -- Where no client has an id that is still to be given, and the ids do not wrap around, a client that is
  -- accepted, and that can be made, is entered under the next id, every other client stays as it is,
  -- and still no client has an id that is to be given. The same holds of the end of a client, where
  -- its id alone is free.
  pub callback-Fresh :
      (make_client : ℕ → ℕ → Option C) (read write : Bool) (fd client_fd : ℕ) (client : C) (j d : ℕ)
      (s : UnixSockServer C)
      → Fresh s
      → s.next_id + 1 < 2 ^ 64
      → make_client s.next_id client_fd ≡ some client
      → (s' : UnixSockServer C) × (callback make_client read write false fd (some client_fd) s
          ≡ some s')
        × Fresh s'
        × (Map.find j s'.clients
            ≡ ite (ℕ_discrete s.next_id j) (some client) (Map.find j s.clients))
        × Fresh (client_dead d s')
        × (Map.find j (client_dead d s').clients
            ≡ ite (ℕ_discrete d j) none (Map.find j s'.clients))
  unfolding callback client_dead
  callback-Fresh make read write fd cfd client j d s f small made =
      let put = Map.put s.next_id client s.clients in
      let s' : UnixSockServer C = record {
        clients = put;
        next_id = s.next_id + 1;
        removed = s.removed;
      } in
      let later : (id : ℕ) → s.next_id + 1 ≤ id → Map.find id put ≡ none = λ id le.
        ground (arith, Map.find-put s.next_id id client s.clients, f.later id (omega arith)) in
      (
        s',
        ap (λ o. inserted o s) made
            ∙ ap (λ m. some (record s { clients = m; next_id = (s.next_id + 1) % 2 ^ 64 }))
                (insert_client-fresh s.next_id client s.clients (f.later s.next_id (omega arith)))
            ∙ ap (λ n. some (record { clients = put; next_id = n; removed = s.removed }))
                (next s.next_id small),
        record { later = later },
        Map.find-put s.next_id j client s.clients,
        record { later = λ id le. ground (arith, Map.find-erase d id put, later id le) },
        Map.find-erase d j put,
      )
