-- ===== src/Collector/Pipeline/Tests.antt =====
-- Runs of the pipeline's drain on small inputs.
use kpcl_hardware.Common.{ℕ, List, ◌≡◌, refl, true, false, none, some, [], ◌∷◌, arith}
use kpcl_hardware.Common.Int.{pos}
use kpcl_hardware.Collector.Buffer.{Row, Buffer}
use kpcl_hardware.Collector.Buffer
use kpcl_hardware.Collector.Buffer.Ids.{append-IdsValid}
use kpcl_hardware.Collector.Sink.{committed, unacknowledged, write_samples}
use kpcl_hardware.Collector.Pipeline.{Pipeline, Round, drain, drain_loop, buffer_batch, link_down}
use kpcl_hardware.Collector.Pipeline.Empty.{Undisturbed, Empties, drain-Empties}
use kpcl_hardware.Collector.Pipeline.Store.{found, samples}
use kpcl_hardware.Collector.Pipeline.Store.Insert.{append-OneEach}
use kpcl_hardware.Collector.Pipeline.Store.Drained.{Tabled, visible, drain-visible}
use kpcl_hardware.Collector.Pipeline.Store.Recovered.{drain-buffer_batch}
use kpcl_hardware.Collector.Model.{Sample}

abbrev stored : ℕ → ℕ → Row
stored id ts = record {
  id = id;
  sample = record {
    tag_id = 7;
    tag_name = "unit1.MW";
    source_ts = ts;
    server_ts = none;
    value = some (pos ts);
    quality = 0;
    seq = some id;
    run = some 3;
  };
}

abbrev two_rows : Buffer
two_rows = record {
  rows = stored 1 5000 ∷ stored 2 4000 ∷ [];
  next_id = 3;
  lost = [];
  next_loss = 1;
  overflowed = 0;
  warned = false;
  max_rows = 10;
  warn_num = 1;
  warn_den = 2;
}

abbrev waiting_rows : Pipeline
waiting_rows = record {
  batch_size = 1;
  run_id = some 3;
  archive = [];
  collector_loss = [];
  buffer = two_rows;
  emitted = [];
  incoming = [];
  link_up = true;
  draining = false;
  received = 2;
  forwarded = 0;
  buffered = 2;
  drained = 0;
  duplicate_ts = 0;
  compressed_out = 0;
  last_forward = none;
  seq = [];
  last_ts = [];
  last_quality = [];
  rate_window = [];
  compressors = [];
}

abbrev calm : Round
calm = record { reply = committed; arrivals = []; now = 9000 }

calm-Undisturbed : Undisturbed calm
calm-Undisturbed = record { commits = refl; quiet = refl }

drain-Empties_example :
    Empties (drain_loop (calm ∷ calm ∷ calm ∷ []) waiting_rows 0)
    × ((drain waiting_rows (calm ∷ calm ∷ calm ∷ []) committed).buffer.rows ≡ [])
drain-Empties_example =
    drain-Empties waiting_rows (calm ∷ calm ∷ calm ∷ []) committed refl (omega arith)
      (calm-Undisturbed, (calm-Undisturbed, (calm-Undisturbed, tt))) (omega arith)

abbrev no_rows : Buffer
no_rows = record two_rows { rows = []; next_id = 1 }

no_rows-Tabled : Tabled no_rows
no_rows-Tabled = record {
  one_each = λ tag ts r q l m k j. elim l [ ];
  ids = record { ascend = tt; below = tt };
}

abbrev outage : List Sample
outage = (stored 1 5000).sample ∷ (stored 2 4000).sample ∷ (stored 3 5000).sample ∷ []

abbrev after_outage : Buffer
after_outage = (Buffer.append no_rows outage 9000).0

after_outage-Tabled : Tabled after_outage
after_outage-Tabled = record {
  one_each = append-OneEach no_rows outage 9000 (omega arith) no_rows-Tabled.one_each;
  ids = append-IdsValid no_rows outage 9000 no_rows-Tabled.ids;
}

abbrev unanswered : Round
unanswered = record { reply = unacknowledged; arrivals = []; now = 9500 }

abbrev refilled : Pipeline
refilled = record waiting_rows { buffer = after_outage }

drain-visible_example :
    visible 7 5000 (drain refilled (calm ∷ unanswered ∷ []) committed) ≡ visible 7 5000 refilled
drain-visible_example =
    drain-visible 7 5000 refilled (calm ∷ unanswered ∷ []) committed refl
      (record { quiet = refl }, (record { quiet = refl }, tt)) after_outage-Tabled

-- The older sample goes first, and the first sample of a key stays.
visible_test : visible 7 5000 refilled ≡ some (stored 1 5000).sample
unfolding visible found Buffer.append
visible_test = refl

abbrev cut_off : Pipeline
cut_off = record waiting_rows { buffer = no_rows }

drain-buffer_batch_example :
    found 7 4000
      (drain
        (buffer_batch cut_off outage link_down 9000)
        (calm ∷ calm ∷ calm ∷ calm ∷ [])
        committed).archive
    ≡ found 7 4000 (write_samples (write_samples [] (samples [])) outage)
drain-buffer_batch_example =
    drain-buffer_batch 7 4000 cut_off outage link_down 9000 (calm ∷ calm ∷ calm ∷ calm ∷ [])
      committed refl (omega arith) (omega arith) no_rows-Tabled
      (calm-Undisturbed, (calm-Undisturbed, (calm-Undisturbed, (calm-Undisturbed, tt))))
      (omega arith)
