-- ===== src/Service/Inspect/Masks.antt =====
-- The values of sensitive variables stay in the daemon (src/ipc/ipc_service.cpp).
use yori.Common.{ℕ, ◌≡◌, ◌≢◌, ◌⊎◌, none, some, false, nat_eq, ◌↔◌, true, List, [], ◌∷◌}
use yori.Common.{Text}
use yori.Store.Types.{StoredJob, store_ok}
use yori.Ipc.Inspect.{IpcEnvEntry}
use yori.Ipc.Response.{IpcResponse, IpcError, store_failed, not_found, denied}
use yori.Service.{PeerCredentials, IpcService, IpcServiceConfig, find_job, is_admin}
use yori.Service.Inspect.Sensitive.{MentionsAny}
use yori.Service.Inspect.{stars}

-- An entry has the name of its variable, is marked as masked exactly if the name mentions a sensitive
-- pattern, and has the value of the variable unless it is marked.
abbrev pub IsMasked : IpcServiceConfig → Text × Text → IpcEnvEntry → Type 0
IsMasked config (name, value) e =
    (e.name ≡ name)
    × ((e.masked ≡ true) ↔ MentionsAny config.sensitive_env_patterns name)
    × (e.masked ≡ true → e.value ≡ stars)
    × (e.masked ≡ false → e.value ≡ value)

abbrev pub AreMasked : IpcServiceConfig → List (Text × Text) → List IpcEnvEntry → Type 0
AreMasked config [] [] = Unit
AreMasked config (p ∷ env) (e ∷ entries) = IsMasked config p e × AreMasked config env entries
AreMasked config _ _ = ⊥

-- Who may not inspect a job.
abbrev pub IsStranger : IpcService → PeerCredentials → StoredJob → Type 0
IsStranger service peer r = (r.spec.owner_uid ≢ peer.uid) × (is_admin service.config peer ≡ false)

abbrev pub IsAnswer : IpcService → PeerCredentials → ℕ → IpcResponse → Type 0
IsAnswer service peer id response =
    ((response.error ≡ store_failed)
      × (store_ok service.load.code ≡ false)
      × (response.inspect.env ≡ []))
    ⊎ ((response.error ≡ not_found)
        × (find_job service.load.snapshot.jobs id ≡ none)
        × (response.inspect.env ≡ []))
    ⊎ ((r : StoredJob) × (find_job service.load.snapshot.jobs id ≡ some r)
        × (((response.error ≡ denied) × IsStranger service peer r × (response.inspect.env ≡ []))
            ⊎ ((response.error ≡ IpcError.no_error)
                × ¬ (IsStranger service peer r)
                × AreMasked service.config r.spec.env response.inspect.env)))
