-- ===== src/Models.antt =====
-- control/models.py: the records that the control store keeps, with the source's fields.
-- A datetime is a count of microseconds. `created_at` and the other defaults of pydantic are
-- given by whoever builds a record. `metadata`, `data` and the other dictionaries are `Json`.
mod Enums
mod Values
mod Records
pub use Enums.*
pub use Values.*
pub use Records.*
