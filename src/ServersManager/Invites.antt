-- ===== src/ServersManager/Invites.antt =====
-- FServersManager's invites (ProjectServer/Source/Private/Managers/ServersManager.cpp): creating,
-- using, deleting and listing them, with the abuse protection of AbuseProtection. The statements on
-- server_invites are the interface InviteStatements; the random code is an argument.
pub mod Joining
pub mod Joined
pub mod Banned
pub mod Created
mod Tests
use squirrel_communicator.Prelude.{
  ℕ, ◌-◌, String, Bool, true, false, not, ◌&&◌, ◌||◌, Option, none, some, List, [], ltb, ◌==◌,
  is_yes, ◌≟◌, if◌then◌else◌, ltb_i32, nat_key, string_key,
}
use squirrel_communicator.UnorderedMap.{find, insert_or_assign, erase}
use squirrel_communicator.Server.{Server}
use squirrel_communicator.Server.Permissions.{can_create_invites}
use squirrel_communicator.InviteAbuse.{
  InviteAbuse, RemoveIf, is_invite_abuse_banned, add_invite_abuse_attempt,
  clear_invite_abuse_for_ip,
}
use squirrel_communicator.ServersManager.{
  Database, ServersManager, on_database, get_server_by_id, user_has_permission,
}
use squirrel_communicator.ServersManager.Members.{add_user_to_server}
use mathlib.Core.Option

-- FInviteInfo, with the times as the database formats them
pub record InviteInfo : Type 0 where
  pub invite_code : String
  pub created_by : ℕ
  pub max_uses : ℕ
  pub current_uses : ℕ
  pub created_at : String
  pub expires_at : String

-- RemainingUses
unfoldable pub remaining_uses : InviteInfo → ℕ
remaining_uses i = if ltb i.current_uses i.max_uses then i.max_uses - i.current_uses else 0

-- IsExhausted
unfoldable pub is_exhausted : InviteInfo → Bool
is_exhausted i = not (ltb i.current_uses i.max_uses)

pub record InviteStatements (D : Type 0) : Type 0 where
  -- SELECT ... FOR UPDATE: the server of a code that is not expired and has a use left
  pub select_valid_invite : String → D → Option ℕ
  -- current_uses + 1, inside the transaction; `false` if it or the COMMIT throws
  pub increment_uses : String → D → D × Bool
  -- code, server, creator, uses, seconds until it expires
  pub insert_invite : String → ℕ → ℕ → ℕ → ℕ → D → D × Bool
  -- COUNT(*) of a server's invites that are not expired, `none` if it throws
  pub count_active_invites : ℕ → D → Option ℕ
  -- the affected rows of the DELETE, `none` if it throws
  pub delete_invite : String → ℕ → D → D × Option ℕ
  -- COUNT(*) of a server's invites
  pub count_invites : ℕ → D → Option ℕ
  -- server, limit and offset: the newest first, by their code at one time
  pub select_invites : ℕ → ℕ → ℕ → D → Option (List InviteInfo)

-- The settings for invites, as uint32, but the int32 maximum of a server
pub record InviteSettings : Type 0 where
  pub default_max_uses : ℕ
  pub default_expires_in_seconds : ℕ
  pub max_expires_in_seconds : ℕ
  pub max_invites_per_server : ℕ

-- JoinViaInvite's answer: the server, or the error
pub data JoinResult : Type 0 where
  joined : ℕ → JoinResult
  refused : String → JoinResult

-- CreateInvite: an expiry of 0 is the default, and none is past the maximum
unfoldable pub resolve_expiry : InviteSettings → ℕ → ℕ
resolve_expiry settings expires_in_seconds =
    let expiry =
      if expires_in_seconds == 0 then settings.default_expires_in_seconds else expires_in_seconds in
    if ltb settings.max_expires_in_seconds expiry then settings.max_expires_in_seconds else expiry

module _ {D : Type 0} (db : Database D) (sql : InviteStatements D) where
  -- ConsumeInviteFromDB: the transaction is undone unless all of it succeeds
  unfoldable pub consume_invite_from_db : String → ServersManager D → ServersManager D × Option ℕ
  consume_invite_from_db code m =
      let (d, is_connected) = db.connect m.database in
      let (d', done) = sql.increment_uses code d in
      if is_connected
      then elim (sql.select_valid_invite code d) [
        | none ↦ (record m { database = d }, none)
        | some server_id ↦
            if done
            then (record m { database = d' }, some server_id)
            else (record m { database = d }, none)
      ]
      else (record m { database = d }, none)

  -- GetActiveInviteCountForServer: 0 without a connection or an answer
  unfoldable pub get_active_invite_count_for_server : ℕ → ServersManager D → ServersManager D × ℕ
  get_active_invite_count_for_server server_id m =
      let (d, is_connected) = db.connect m.database in
      (
        record m { database = d },
        if is_connected then Option.get_or (sql.count_active_invites server_id d) 0 else 0,
      )

  -- CreateInvite with a generated code, once it is permitted and the server has room for it
  unfoldable pub store_invite :
      InviteSettings → String → ℕ → ℕ → ℕ → ℕ → ServersManager D → ServersManager D × String
  unfolding on_database resolve_expiry
  store_invite settings code server_id created_by max_uses expires_in_seconds m =
      let uses = if max_uses == 0 then settings.default_max_uses else max_uses in
      let expiry = resolve_expiry settings expires_in_seconds in
      let (m', done) = on_database db (sql.insert_invite code server_id created_by uses expiry) m in
      if done
      then (
        record m' {
          invite_code_to_server_id = insert_or_assign code server_id m'.invite_code_to_server_id;
        },
        code,
      )
      else (m', "")

  -- CreateInvite: the code, or an empty string
  unfoldable pub create_invite :
      InviteSettings → String → ℕ → ℕ → ℕ → ℕ → ServersManager D → ServersManager D × String
  unfolding get_server_by_id user_has_permission get_active_invite_count_for_server store_invite
  create_invite settings code server_id created_by max_uses expires_in_seconds m =
      let (m₁, server) = get_server_by_id db server_id m in
      let (m₂, permitted) = user_has_permission db server_id created_by can_create_invites m₁ in
      let maximum = settings.max_invites_per_server in
      let (m₃, active) = get_active_invite_count_for_server server_id m₂ in
      let stored = store_invite settings code server_id created_by max_uses expires_in_seconds in
      let limited = stored m₃ in
      let unlimited = stored m₂ in
      elim server [
        | none ↦ (m₁, "")
        | some s ↦
            if not permitted
            then (m₂, "")
            else if ltb_i32 0 maximum
            then if not (ltb_i32 active maximum) then (m₃, "") else limited
            else unlimited
      ]

  -- DeleteInvite
  unfoldable pub delete_invite : ℕ → String → ℕ → ServersManager D → ServersManager D × Bool
  unfolding get_server_by_id user_has_permission on_database
  delete_invite server_id code requested_by m =
      let (m₁, server) = get_server_by_id db server_id m in
      let (m₂, permitted) = user_has_permission db server_id requested_by can_create_invites m₁ in
      let (m₃, done) =
        on_database db
          (λ d.
            let (d', affected) = sql.delete_invite code server_id d in
            (d', elim affected [ none ↦ false | some n ↦ ltb 0 n ]))
          m₂ in
      elim server [
        | none ↦ (m₁, false)
        | some s ↦
            if not permitted
            then (m₂, false)
            else if done
            then (
              record m₃ { invite_code_to_server_id = erase code m₃.invite_code_to_server_id },
              true,
            )
            else (m₃, false)
      ]

  -- ListInvitesFromDB: the invites and how many there are
  unfoldable pub list_invites_from_db :
      ℕ → ℕ → ℕ → ServersManager D → ServersManager D × Option (List InviteInfo × ℕ)
  list_invites_from_db server_id start count m =
      let (d, is_connected) = db.connect m.database in
      (
        record m { database = d },
        if is_connected
            then elim (sql.count_invites server_id d) [
              | none ↦ none
              | some total ↦
                  if total == 0
                  then some ([], 0)
                  else elim (sql.select_invites server_id count start d) [
                    | none ↦ none
                    | some invites ↦ some (invites, total)
                  ]
            ]
            else none,
      )

  -- ListInvites: the page and OutTotal, which is not written where there is no answer
  unfoldable pub list_invites :
      ℕ → ℕ → ℕ → ℕ → ServersManager D → ServersManager D × (List InviteInfo × Option ℕ)
  unfolding get_server_by_id user_has_permission list_invites_from_db
  list_invites server_id requested_by start count m =
      let (m₁, server) = get_server_by_id db server_id m in
      let (m₂, permitted) = user_has_permission db server_id requested_by can_create_invites m₁ in
      let clamped = if count == 0 then 50 else if ltb 200 count then 200 else count in
      let (m₃, page) = list_invites_from_db server_id start clamped m₂ in
      elim server [
        | none ↦ (m₁, ([], none))
        | some s ↦
            if not permitted
            then (m₂, ([], none))
            else (m₃, elim page [ none ↦ ([], none) | some (is, total) ↦ (is, some total) ])
      ]
