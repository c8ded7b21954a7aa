-- ===== src/Collector/Session/Origin.antt =====
-- collector/session.py, `handle`: where the samples come from.
use kpcl_hardware.Common.{◌≡◌, ◌⊎◌, some, List, [], ◌∷◌, In}
use kpcl_hardware.Common.Dict.{Dict, get}
use kpcl_hardware.Collector.Model.{Sample}
use kpcl_hardware.Collector.Session.{Handler, Tag}
use kpcl_hardware.Collector.Session.Handling.{Notification, Faithful}

-- A notification of a known tag that the sample tells faithfully.
pub record Origin (tags : Dict Tag) (ns : List Notification) (s : Sample) : Type 0 where
  pub notification : Notification
  pub tag : Tag
  pub listed : In notification ns
  pub known : get notification.node tags ≡ some tag
  pub faithful : Faithful tag notification.value s

record Delivers (tags : Dict Tag) (n : Notification) (h r : Handler) : Type 0 where
  tags_is : r.tag_by_node ≡ h.tag_by_node
  origin : (s : Sample) → In s r.delivered → In s h.delivered ⊎ Origin tags (n ∷ []) s
