-- ===== src/Services/Errors.antt =====
-- app/services/exceptions.py. A constructor carries what the message of the exception names.
use drive_now.Base.{ℕ}
use drive_now.Models.{CarStatus}

-- The two reasons for `CarNotAvailableError`.
pub data Unavailable : Type 0 where
  has_status : CarStatus → Unavailable
  has_active_rental : Unavailable

pub data DomainError : Type 0 where
  car_not_found : ℕ → DomainError
  rental_not_found : ℕ → DomainError
  car_not_available : ℕ → Unavailable → DomainError
  car_status_transition : CarStatus → CarStatus → DomainError
  car_has_active_rental : ℕ → DomainError
  rental_already_ended : ℕ → DomainError
  rental_must_start_today : DomainError
  return_before_start : DomainError
