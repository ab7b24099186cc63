-- ===== src/Client.antt =====
-- src/client.ts: the API clients that are kept by the path of their node. The creation of a client is
-- the library's; its clients are told apart by numbers.
use lisk_migrator.Common.{
  ℕ, ◌≡◌, refl, ◌∙◌, ap, sym, subst₂, same→eq, ◌+◌, List, Bool, true, false, Option, none, some,
  Text, same, same_iff, same_refl, if◌then◌else◌, Result, ok, err, Bool-cases, inl, inr,
}
use lisk_migrator.Common.Dict.{lookup, insert, lookup-insert}

-- `clientCache`, and how many clients were created.
pub record Clients : Type 0 where
  pub client_cache : List (Text × ℕ)
  pub created : ℕ

abbrev pub keep_client : Text → Clients → Result (Unit {0}) → Result ℕ × Clients
keep_client path clients (err e) = (err e, clients)
keep_client path clients (ok done) = (
  ok clients.created,
  record {
    client_cache = insert same path clients.created clients.client_cache;
    created = clients.created + 1;
  },
)

abbrev pub cached_or : Option ℕ → Bool → Result ℕ × Clients → Clients → Result ℕ × Clients
cached_or none is_force_instantiate made clients = made
cached_or (some client) is_force_instantiate made clients =
    if is_force_instantiate then made else (ok client, clients)

-- `createIPCClient` may fail for a path at a time.
unfoldable pub get_api_client :
    (Text → ℕ → Result (Unit {0})) → Text → Bool → Clients → Result ℕ × Clients
unfolding lookup insert
get_api_client connect path is_force_instantiate clients =
    cached_or (lookup same path clients.client_cache) is_force_instantiate
      (keep_client path clients (connect path clients.created)) clients

module _ (connect : Text → ℕ → Result (Unit {0})) (path : Text) where
  -- The client of the path is the given one, and those of the others are as before.
  abbrev Keeps : Clients → ℕ → Clients → Type 0
  Keeps clients client after =
      (other : Text)
      → lookup same other after.client_cache
        ≡ (if same other path then some client else lookup same other clients.client_cache)

  made-Keeps :
      (clients : Clients) (r : Result (Unit {0})) {client : ℕ} {after : Clients}
      → keep_client path clients r ≡ (ok client, after)
      → Keeps clients client after
  made-Keeps clients (err e) h = absurd (cc (ap (λ o. o.0) h))
  made-Keeps clients (ok done) {client} {after} h =
      subst₂ (Keeps clients) (ok_injective (ap (λ o. o.0) h)) (ap (λ o. o.1) h)
        (λ other. lookup-insert same same_iff other path clients.created clients.client_cache)
    where
      ok_injective : {a b : ℕ} → ok a ≡ ok b → a ≡ b
      ok_injective e = cc

  cached-Keeps :
      (clients : Clients) (found : Option ℕ) (forced : Bool) {client : ℕ} {after : Clients}
      → lookup same path clients.client_cache ≡ found
      → cached_or found forced (keep_client path clients (connect path clients.created)) clients
        ≡ (ok client, after)
      → Keeps clients client after
  cached-Keeps clients none forced e h = made-Keeps clients _ h
  cached-Keeps clients (some c) true e h = made-Keeps clients _ h
  cached-Keeps clients (some c) false {client} {after} e h = λ other.
      elim (Bool-cases (same other path)) [
        | inl s ↦ rw s (
            ap (λ k. lookup same k after.client_cache) (same→eq other path s)
            ∙ ap (λ o. lookup same path o.client_cache) (sym (ap (λ o. o.1) h))
            ∙ e
            ∙ cc (ap (λ o. o.0) h))
        | inr s ↦ rw s (ap (λ o. lookup same other o.client_cache) (sym (ap (λ o. o.1) h)))
      ]

  -- After a call that returned a client, forced or not, a call for the same path that is not forced
  -- returns that client and changes nothing, and the clients of all other paths are as they were before
  -- the first call.
  pub get_api_client_again :
      (forced : Bool) (clients : Clients) {client : ℕ} {after : Clients}
      → get_api_client connect path forced clients ≡ (ok client, after)
      → (get_api_client connect path false after ≡ (ok client, after))
        × ((other : Text)
            → lookup same other after.client_cache
              ≡ (if same other path then some client else lookup same other clients.client_cache))
  unfolding get_api_client
  get_api_client_again forced clients {client} {after} h =
      let kept = cached-Keeps clients (lookup same path clients.client_cache) forced refl h in
      (rw (kept path, same_refl path) refl, kept)
