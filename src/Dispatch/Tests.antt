-- ===== src/Dispatch/Tests.antt =====
-- Two calls, the second with an unknown number, in front of a descriptor that cannot be read.
use ix.Base.{ℕ, ◌+◌, Bool, true, false, List, [], ◌∷◌}
use ix.Dispatch.{Desc, Table}

-- each call counts, and answers with its number
abbrev counting : Table ℕ
counting n d s = record { ret = n; cookie = d.arga; state = s + 1 }

abbrev desc : ℕ → Bool → Desc
desc n faults = record {
  sysnr = n;
  arga = 5;
  argb = 0;
  argc = 0;
  argd = 0;
  read_faults = faults;
  write_faults = false;
}

abbrev first_two : List Desc
first_two = desc 10 false ∷ desc 99 false ∷ []

abbrev last_one : List Desc
last_one = desc 11 true ∷ []
