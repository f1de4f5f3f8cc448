-- ===== src/Workspaces/Tests/Permissions.antt =====
-- The theorems on overrides at the small database.
use teri_chat.Prelude.{◌≡◌, refl, false, ok, err}
use teri_chat.Workspaces.Role.{send_messages, member}
use teri_chat.Workspaces.Schema.{Db, Channel, ChannelOverride, to_member}
use teri_chat.Workspaces.Sample.{sample, env, running}
use teri_chat.Workspaces.Overrides.{
  set_override_tx, delete_override_tx, channel_allowed, target_eq, permission_eq, remove_override,
}
use teri_chat.Workspaces.Overrides.Precedence.{channel_allowed-set_override}
use teri_chat.Prelude.Text.{codes}

abbrev room : Channel
room = record {
  id = 20;
  workspace_id = 10;
  conversation_id = 30;
  name = codes "general";
  created_by = 1;
  created_at = 3;
}

abbrev silence : ChannelOverride
silence = record {
  channel_id = 20;
  target = to_member 3;
  permission = send_messages;
  allowed = false;
}

-- The admin has silenced the member.
abbrev silenced : Db
silenced = elim (set_override_tx env 2 room (to_member 3) send_messages false sample) [
  | ok (o, db) ↦ db
  | err e ↦ sample
]

silence_run :
    set_override_tx env 2 room (to_member 3) send_messages false sample ≡ ok (silence, silenced)
unfolding running set_override_tx
silence_run = refl

channel_allowed-set_override_example : channel_allowed 20 3 send_messages silenced ≡ false
unfolding running
channel_allowed-set_override_example =
    channel_allowed-set_override env 2 room room 3 send_messages false silence member sample
      silenced silence_run refl refl refl

abbrev lifted : Db
lifted = elim (delete_override_tx env 2 room (to_member 3) send_messages silenced) [
  | ok (o, db) ↦ db
  | err e ↦ sample
]

lift_run : delete_override_tx env 2 room (to_member 3) send_messages silenced ≡ ok (tt, lifted)
unfolding running delete_override_tx set_override_tx remove_override target_eq permission_eq
lift_run = refl
