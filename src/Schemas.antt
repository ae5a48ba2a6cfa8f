-- ===== src/Schemas.antt =====
-- The DTOs of app/schemas: those of requests as the routers hand them to the services, and those of
-- responses.
pub mod Validation
pub mod Bodies
use drive_now.Base.{ℕ, String, Bool, Option}
use drive_now.Models.{CarStatus, Car, Rental, is_active}

pub record CarCreate : Type 0 where
  pub model : String
  pub year : ℕ

-- A field is `none` if the body did not send it; one that was sent as null is refused before.
pub record CarUpdate : Type 0 where
  pub model : Option String
  pub year : Option ℕ
  pub status : Option CarStatus

pub record RentalCreate : Type 0 where
  pub car_id : ℕ
  pub customer_name : String
  pub start_date : ℕ
  pub end_date : ℕ

pub record CarRead : Type 0 where
  pub id : ℕ
  pub model : String
  pub year : ℕ
  pub status : CarStatus
  pub created_at : ℕ
  pub updated_at : ℕ

abbrev pub car_read : Car → CarRead
car_read c = record {
  id = c.id;
  model = c.model;
  year = c.year;
  status = c.status;
  created_at = c.created_at;
  updated_at = c.updated_at;
}

pub record RentalRead : Type 0 where
  pub id : ℕ
  pub car_id : ℕ
  pub customer_name : String
  pub start_date : ℕ
  pub end_date : ℕ
  pub returned_date : Option ℕ
  pub created_at : ℕ
  pub updated_at : ℕ
  pub is_active : Bool

abbrev pub rental_read : Rental → RentalRead
rental_read r = record {
  id = r.id;
  car_id = r.car_id;
  customer_name = r.customer_name;
  start_date = r.start_date;
  end_date = r.end_date;
  returned_date = r.returned_date;
  created_at = r.created_at;
  updated_at = r.updated_at;
  is_active = is_active r;
}
