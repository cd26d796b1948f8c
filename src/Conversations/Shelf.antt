-- ===== src/Conversations/Shelf.antt =====
-- A database with an unchanging history of three messages, as ConversationDatabase, for runs.
use squirrel_communicator.Prelude.{ℕ, String, true, false, some, List, [], ◌∷◌, take, drop}
use squirrel_communicator.Server.{text}
use squirrel_communicator.Conversations.{
  ConversationMessageData, Encryption, MessageRow, ConversationDatabase, sent,
}

abbrev pub message : ℕ → String → ConversationMessageData
message id content = record {
  message_id = id;
  sender_id = 1;
  message = content;
  created_at = 0;
  status = sent;
  message_type = text;
}

abbrev pub row : ℕ → String → MessageRow
row id content = record { columns = message id content; is_encrypted = false }

abbrev pub history : List MessageRow
history = row 13 "three" ∷ row 12 "two" ∷ row 11 "one" ∷ []

abbrev pub plain : Encryption
plain = record { is_encryption_enabled = false; encrypt_message = λ s. s; decrypt_message = λ s. s }

abbrev pub shelf : ConversationDatabase Unit
shelf = record {
  connect = λ d. (d, true);
  select_messages = λ id offset limit d. take limit (drop offset history);
  update_message = λ requester id message text status encrypted d. (d, some 1);
  insert_message = λ id row d. (d, some 14);
  touch_conversation = λ id d. (d, true);
  find_conversation_2 = λ u v d. 0;
  insert_conversation = λ d. (d, true);
  last_insert_id = λ d. 5;
  insert_participant = λ id user d. (d, true);
  select_conversations = λ user offset limit d. [];
  select_participants = λ id d. [];
}
