-- ===== src/Session/Server/Cleanup.antt =====
-- The cleanups of session/shm/arena_lend/jemalloc/session_server.hpp and
-- session/detail/shm/arena_lend/jemalloc/client_session_impl.hpp.
use ipc_shm_arena_lend.Base.{
  ℕ, ◌≡◌, refl, Bool, true, false, not, Option, none, some, List, [], ◌∷◌, ◌++◌, arith, ◌==◌, ap,
  ◌∙◌,
}
use ipc_shm_arena_lend.Session.Server.{
  PoolName, starts_with, without, before, is_dead, server_removes, client_removes, pool_name_rest,
}

starts_with-++ : (p s : List ℕ) → starts_with p (p ++ s) ≡ true
unfolding starts_with
starts_with-++ [] s = refl
starts_with-++ (c ∷ p) s = ground (arith, starts_with-++ p s)

without-++ : (p s : List ℕ) → without p (p ++ s) ≡ s
unfolding without
without-++ [] s = refl
without-++ (c ∷ p) s = without-++ p s

before-++ : (c : ℕ) (w s : List ℕ) → before c w ≡ none → before c (w ++ c ∷ s) ≡ some w
unfolding before
before-++ c [] s e = ground arith
before-++ c (d ∷ w) s e = ground (arith, e, before-++ c w s)

module _ (prefix : List ℕ) (separator : ℕ) (read_pid : List ℕ → Option ℕ) (running : ℕ → Bool) where
  -- The cleanup of a client removes, of the pools that the clients of its application name, those of
  -- the processes that are not running, and that of the server does not touch them. Of the pools that
  -- a server of this application names it is the other way around. A process ID is not 0 and has no
  -- separator in it, and nor has a pool ID.
  pub client_removes-pool_name_rest :
      (namespace word id : List ℕ) (pid : ℕ)
      → before separator word ≡ none
      → before separator id ≡ none
      → (pid == 0) ≡ false
      → read_pid word ≡ some pid
      → let client : PoolName = record {
        of_our_server = true;
        of_our_client = true;
        srv_namespace = namespace;
        the_rest = pool_name_rest prefix separator (some word) id;
      } in
        let server : PoolName = record {
          of_our_server = true;
          of_our_client = true;
          srv_namespace = word;
          the_rest = pool_name_rest prefix separator none id;
        } in
        (client_removes prefix separator read_pid running (some client) ≡ not (running pid))
        × (server_removes prefix separator read_pid running (some client) ≡ false)
        × (server_removes prefix separator read_pid running (some server) ≡ not (running pid))
        × (client_removes prefix separator read_pid running (some server) ≡ false)
  unfolding client_removes server_removes pool_name_rest is_dead
  client_removes-pool_name_rest namespace word id pid w i z r =
      let p = prefix ++ separator ∷ [] in
      let ours = pool_name_rest prefix separator (some word) id in
      let theirs = pool_name_rest prefix separator none id in
      let a : starts_with p ours ≡ true = starts_with-++ p (word ++ separator ∷ id) in
      let b : without p ours ≡ word ++ separator ∷ id = without-++ p (word ++ separator ∷ id) in
      let c : before separator (without p ours) ≡ some word =
        ap (before separator) b ∙ before-++ separator word id w in
      let d : starts_with p theirs ≡ true = starts_with-++ p id in
      let e : before separator (without p theirs) ≡ none =
        ap (before separator) (without-++ p id) ∙ i in
      (
        ground (arith, z, r, a, c),
        ground (arith, a, c),
        ground (arith, z, r, d, e),
        ground (arith, d, e),
      )
