-- ===== src/Peer/Builders.antt =====
-- The builders of messages to a peer: those of
-- soulseek-rs-lib/src/message/server/message_factory.rs that are meant for peers, and those of
-- soulseek-rs-lib/src/message/peer.
use soulseek_rs_lib.Base.{ℕ, Bool, true, false, []}
use soulseek_rs_lib.Base.Text.{Text}
use soulseek_rs_lib.Message.{Message, new, write_int32, write_int64, write_string, write_bool}
use soulseek_rs_lib.Replies.{build_folder_contents_request}

-- The messages to a peer.
pub data Request : Type 0 where
  get_share_file_list user_info_request : Request
  ask_for_upload place_in_queue_request : Text → Request
  ask_for_transfer : (filename : Text) (token : ℕ) → Request
  offer_upload : (filename : Text) (token size : ℕ) → Request
  allow_transfer : (token : ℕ) → Request
  deny_transfer : (token : ℕ) (reason : Text) → Request
  tell_place : (filename : Text) (place : ℕ) → Request
  folder_contents : (token : ℕ) (folder : Text) → Request
  tell_user_info : (upload_slots queue_size : ℕ) (slots_free : Bool) → Request

abbrev pub build_get_share_file_list : Message
build_get_share_file_list = write_int32 4 new

abbrev pub build_user_info_request : Message
build_user_info_request = write_int32 15 new

abbrev pub build_queue_upload_message : Text → Message
build_queue_upload_message filename = write_string filename (write_int32 43 new)

abbrev pub build_place_in_queue_request : Text → Message
build_place_in_queue_request filename = write_string filename (write_int32 51 new)

abbrev pub build_transfer_request_message : Text → ℕ → Message
build_transfer_request_message filename token =
    write_string filename (write_int32 token (write_int32 0 (write_int32 40 new)))

abbrev pub build_upload_transfer_request : Text → ℕ → ℕ → Message
build_upload_transfer_request filename token size =
    write_int64 size
      (write_string filename (write_int32 token (write_int32 1 (write_int32 40 new))))

-- Of the transfer, the token is used.
abbrev pub build_transfer_response_message : ℕ → Message
build_transfer_response_message token = write_bool true (write_int32 token (write_int32 41 new))

abbrev pub build_transfer_denial_message : ℕ → Text → Message
build_transfer_denial_message token reason =
    write_string reason (write_bool false (write_int32 token (write_int32 41 new)))

abbrev pub build_place_in_queue_response : Text → ℕ → Message
build_place_in_queue_response filename place =
    write_int32 place (write_string filename (write_int32 44 new))

abbrev pub build_user_info : ℕ → ℕ → Bool → Message
build_user_info upload_slots queue_size slots_free = write_bool slots_free (
    write_int32 queue_size
      (write_int32 upload_slots (write_bool false (write_string [] (write_int32 16 new)))))

-- The builder of each message.
unfoldable pub build : Request → Message
unfolding build_folder_contents_request
build get_share_file_list = build_get_share_file_list
build user_info_request = build_user_info_request
build (ask_for_upload filename) = build_queue_upload_message filename
build (place_in_queue_request filename) = build_place_in_queue_request filename
build (ask_for_transfer filename token) = build_transfer_request_message filename token
build (offer_upload filename token size) = build_upload_transfer_request filename token size
build (allow_transfer token) = build_transfer_response_message token
build (deny_transfer token reason) = build_transfer_denial_message token reason
build (tell_place filename place) = build_place_in_queue_response filename place
build (folder_contents token folder) = build_folder_contents_request token folder
build (tell_user_info upload_slots queue_size slots_free) =
    build_user_info upload_slots queue_size slots_free
