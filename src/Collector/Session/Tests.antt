-- ===== src/Collector/Session/Tests.antt =====
-- Runs of the session's model on small inputs.
use kpcl_hardware.Common.{◌+◌, ◌≡◌, refl, true, false, none, some, List, [], ◌∷◌, length}
use kpcl_hardware.Common.Int.{pos}
use kpcl_hardware.Collector.Model.{Sample}
use kpcl_hardware.Common.Dict.{get}
use kpcl_hardware.Collector.Session.{
  PublishSequence, Message, Handler, IngressCounts, absent, boolean, other,
}
use kpcl_hardware.Collector.Session.Sequence.{count_gaps, count_new, observe_all, observe_all-adds}
use kpcl_hardware.Collector.Session.Handling.{
  Notification, handle_all, count_refused, count_known, handle_all-adds,
}
use kpcl_hardware.Collector.Session.Origin.{Origin}

abbrev notices : List Message
notices =
    record { subscription_id = 1; sequence_number = 5; keep_alive = false }
    ∷ record { subscription_id = 2; sequence_number = 1; keep_alive = false }
    ∷ record { subscription_id = 1; sequence_number = 9; keep_alive = true }
    ∷ record { subscription_id = 1; sequence_number = 9; keep_alive = false }
    ∷ record { subscription_id = 1; sequence_number = 9; keep_alive = false }
    ∷ []

abbrev expecting_five : PublishSequence
expecting_five = (1, 5) ∷ []

notices_missed : count_gaps 1 expecting_five notices ≡ 3
unfolding count_gaps
notices_missed = refl

first_known : get 1 expecting_five ≡ some 5
unfolding get
first_known = refl

observe_all-adds_example :
    get 1 (observe_all expecting_five notices)
    ≡ some (5 + count_gaps 1 expecting_five notices + count_new 1 5 notices)
observe_all-adds_example = observe_all-adds 1 5 expecting_five notices first_known

abbrev no_counts : IngressCounts
no_counts = record {
  no_source_ts = 0;
  no_status = 0;
  unstorable = 0;
  no_server_ts = 0;
  unresolved_tags = 0;
  publish_gaps = 0;
  publish_missed = 0;
  by_tag = [];
}

abbrev handler : Handler
handler = record {
  tag_by_node = (40, record { id = 7; name = "unit1.MW" }) ∷ [];
  counts = no_counts;
  last_seen = [];
  delivered = [];
  dropped = [];
}

abbrev values : List Notification
values =
    record {
      now = 1;
      node = 40;
      value = record {
        payload = boolean true;
        status = some 0;
        source_ts = some 90;
        server_ts = none;
      };
    }
    ∷ record {
      now = 2;
      node = 40;
      value = record { payload = absent; status = none; source_ts = some 91; server_ts = none };
    }
    ∷ record {
      now = 3;
      node = 41;
      value = record { payload = other; status = none; source_ts = none; server_ts = none };
    }
    ∷ []

abbrev delivered_one : Sample
delivered_one = record {
  tag_id = 7;
  tag_name = "unit1.MW";
  source_ts = 90;
  server_ts = none;
  value = some (pos 1_000_000_000_000);
  quality = 0;
  seq = none;
  run = none;
}

values_delivered : (handle_all handler values).delivered ≡ delivered_one ∷ []
unfolding handle_all
values_delivered = refl

handle_all-adds_example :
    length (handle_all handler values).delivered + count_refused (handle_all handler values).counts
    ≡ length handler.delivered
      + count_refused handler.counts
      + count_known handler.tag_by_node values
handle_all-adds_example = handle_all-adds handler values
