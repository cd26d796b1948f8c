-- ===== src/SocketData.antt =====
-- The names of message types and their compile-time hashes
-- (ProjectServer/Source/Private/Sockets/SocketData.cpp).
pub mod Hash
pub mod Section
pub mod PrivateType
pub mod ServersType
pub mod Content
pub mod Names
mod Tests
use squirrel_communicator.Prelude.{ℕ, String, List, [], ◌∷◌, ◌==◌, if◌then◌else◌}
use squirrel_communicator.SocketData.Hash.{hash_string}

-- switch (HashString(Text)) over labels `HashString("...")`: the first label with the hash of the
-- text, of which a switch has no second
unfoldable pub switch_hash {ℓ} : {A : Type ℓ} → String → List (String × A) → A → A
unfolding hash_string
switch_hash text [] default = default
switch_hash text ((label, answer) ∷ labels) default =
    let rest = switch_hash text labels default in
    if hash_string text == hash_string label then answer else rest
