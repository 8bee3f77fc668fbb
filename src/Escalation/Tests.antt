-- ===== src/Escalation/Tests.antt =====
-- The theorems on escalation at a concrete router and queue.
use nexa_assist.Common.{ℕ, some, Option}
use nexa_assist.Intent.{category_key}
use nexa_assist.Escalation.{ReviewItem}

abbrev queue : ReviewItem ℕ → Option ℕ
queue item = some 41
