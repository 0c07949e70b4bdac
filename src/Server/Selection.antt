-- ===== src/Server/Selection.antt =====
-- `ServicePort::make_protocol` of source/server.cpp: which service makes the protocol of a connection.
use juggernaut_server.Base.{
  ℕ, ◌≡◌, refl, ap, sym, ◌↔◌, ==_iff, Bool, true, false, not, ◌&&◌, ◌||◌, List, [], ◌∷◌, ◌++◌,
  Option, none, some, ◌==◌, All, if◌then◌else◌,
}
use juggernaut_server.Server.{Service, find_service}

-- The service answers to the identifier, and has the checksum that it asks for.
abbrev pub Serves : Bool → ℕ → Service → Type 0
Serves checksummed protocol_id service =
    (service.protocol_identifier ≡ protocol_id) × (service.checksummed ≡ true → checksummed ≡ true)

-- The first service of the port that serves, or none when none does.
abbrev pub IsFirst : Bool → ℕ → List Service → Option Service → Type 0
IsFirst checksummed protocol_id services none =
    All (λ s. ¬ Serves checksummed protocol_id s) services
IsFirst checksummed protocol_id services (some service) =
    Serves checksummed protocol_id service
    × (before : List Service) × (behind : List Service) × (services ≡ before ++ service ∷ behind)
    × All (λ s. ¬ Serves checksummed protocol_id s) before

IsFirst-skip :
    (checksummed : Bool) (protocol_id : ℕ) (service : Service) (services : List Service)
    (r : Option Service)
    → (¬ Serves checksummed protocol_id service)
    → IsFirst checksummed protocol_id services r
    → IsFirst checksummed protocol_id (service ∷ services) r
IsFirst-skip checksummed protocol_id service services none refused f = (refused, f)
IsFirst-skip checksummed protocol_id service services (some found) refused
      (serves, before, behind, e, f) =
    (serves, service ∷ before, behind, ap (◌∷◌ service) e, (refused, f))

-- One round of the loop, with the result for the other services.
find_one :
    (checksummed same c : Bool) (protocol_id : ℕ) (service : Service) (services : List Service)
    (r : Option Service)
    → ((same ≡ true) ↔ (protocol_id ≡ service.protocol_identifier))
    → service.checksummed ≡ c
    → IsFirst checksummed protocol_id services r
    → IsFirst checksummed protocol_id
        (service ∷ services)
        (if not same then r else (if checksummed && c || not c then some service else r))
find_one checksummed false c protocol_id service services r (_, same) e f =
    IsFirst-skip checksummed protocol_id service services r
      (λ serves. absurd (cc (same (sym serves.0)))) f
find_one true true true protocol_id service services r (same, _) e f =
    ((sym (same refl), λ _. refl), [], services, refl, tt)
find_one false true true protocol_id service services r (same, _) e f =
    IsFirst-skip false protocol_id service services r (λ serves. absurd (cc (serves.1 e))) f
find_one true true false protocol_id service services r (same, _) e f =
    ((sym (same refl), λ _. refl), [], services, refl, tt)
find_one false true false protocol_id service services r (same, _) e f =
    ((sym (same refl), λ h. absurd (cc)), [], services, refl, tt)

-- `make_protocol` finds the first service of the port that has the identifier and, if the service is
-- checksummed, a packet whose checksum was right; it finds none only when no service serves.
find_service-IsFirst :
    (checksummed : Bool) (protocol_id : ℕ) (services : List Service)
    → IsFirst checksummed protocol_id services (find_service checksummed protocol_id services)
unfolding find_service
find_service-IsFirst checksummed protocol_id [] = tt
find_service-IsFirst checksummed protocol_id (service ∷ services) =
    find_one checksummed (protocol_id == service.protocol_identifier) service.checksummed
      protocol_id service services (find_service checksummed protocol_id services)
      (==_iff protocol_id service.protocol_identifier) refl
      (find_service-IsFirst checksummed protocol_id services)
