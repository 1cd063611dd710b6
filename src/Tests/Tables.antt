-- ===== src/Tests/Tables.antt =====
-- Jobs in each stage of their life, and tables of them.
use service_jobs.Prelude.{refl, none, some, [], ◌∷◌, arith, Memᴰ}
use service_jobs.Dao.Job.{Job, pending, claimed, succeeded}
use service_jobs.Dao.Table.{Table}
use service_jobs.Invariant.{IsSound, IsWellFormed}

abbrev pub waiting : Job
waiting = record {
  id = 1;
  kind = "mail";
  payload = [];
  owner_id = 7;
  idempotency_key = some "k";
  request_fingerprint = [];
  status = pending;
  attempt = 0;
  max_attempts = 2;
  run_at = 5;
  lease_expires_at = none;
  claimed_by = none;
  cancel_requested_at = none;
  provider_call_id = none;
  result = none;
  error = none;
  created_at = 5;
  updated_at = 5;
  settled_at = none;
  expires_at = none;
}

abbrev pub waiting_longer : Job
waiting_longer = record waiting { id = 2; idempotency_key = none; run_at = 3 }

abbrev pub running : Job
running = record waiting {
  id = 3;
  idempotency_key = none;
  status = claimed;
  attempt = 1;
  lease_expires_at = some 10;
  claimed_by = some "w";
}

abbrev pub over : Job
over = record waiting {
  id = 4;
  idempotency_key = some "other";
  status = succeeded;
  attempt = 1;
  settled_at = some 8;
  expires_at = some 90;
}

abbrev pub jobs : Table
jobs = waiting ∷ waiting_longer ∷ running ∷ over ∷ []

waiting-IsSound : IsSound waiting
waiting-IsSound = ground arith

waiting_longer-IsSound : IsSound waiting_longer
waiting_longer-IsSound = ground arith

running-IsSound : IsSound running
running-IsSound = ground arith

over-IsSound : IsSound over
over-IsSound = ground arith

pub jobs-IsWellFormed : IsWellFormed jobs
jobs-IsWellFormed = record {
  sound = (waiting-IsSound, (waiting_longer-IsSound, (running-IsSound, (over-IsSound, tt))));
  ids_differ = ((refl, (refl, (refl, tt))), ((refl, (refl, tt)), ((refl, tt), (tt, tt))));
  keys_differ = ((refl, (refl, (refl, tt))), ((refl, (refl, tt)), ((refl, tt), (tt, tt))));
}

pub waiting-in : Memᴰ waiting jobs
waiting-in = Memᴰ.head refl

pub waiting_longer-in : Memᴰ waiting_longer jobs
waiting_longer-in = Memᴰ.tail (Memᴰ.head refl)

pub running-in : Memᴰ running jobs
running-in = Memᴰ.tail (Memᴰ.tail (Memᴰ.head refl))

pub over-in : Memᴰ over jobs
over-in = Memᴰ.tail (Memᴰ.tail (Memᴰ.tail (Memᴰ.head refl)))
