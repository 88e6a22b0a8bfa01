-- ===== src/Disk.antt =====
-- A storage device: the class `Disk` of dadisi/Disk.cpp and dadisi/Disk.h. The fields are 64-bit
-- patterns; `data` is the client's pointer, which the library only copies.
use data_distribution_simula.Base.{ℕ}

pub record Disk : Type 0 where
  pub id : ℕ
  pub capacity : ℕ
  pub payload : ℕ

-- The copy constructor: a new object with the same fields.
abbrev pub copy : Disk → Disk
copy d = record { id = d.id; capacity = d.capacity; payload = d.payload }
