-- ===== src/Peer/Dispatch.antt =====
-- From a builder over the wire to the handler: each message to a peer is dispatched to the handler of its
-- code, which reads what was written.
use soulseek_rs_lib.Base.{ℕ, ◌<◌, ◌%◌, ◌^◌, true, false, none, some, List, [], ◌++◌, length}
use soulseek_rs_lib.Base.Text.{Text}
use soulseek_rs_lib.Base.Assoc.{nat_eq}
use soulseek_rs_lib.Bytes.{le_bytes}
use soulseek_rs_lib.Message.{Message, new_with_data, get_buffer}
use soulseek_rs_lib.Message.Parses.{IsText}
use soulseek_rs_lib.Message.Writes.{Writes}
use soulseek_rs_lib.Peer.{
  PeerMessage, transfer_request, transfer_response, share_list_requested, user_info_requested,
  folder_contents_requested, user_info_received, incoming_queue_upload,
  incoming_place_in_queue_request, place_in_queue_response,
}
use soulseek_rs_lib.Peer.Builders.{
  Request, get_share_file_list, user_info_request, ask_for_upload, place_in_queue_request,
  ask_for_transfer, offer_upload, allow_transfer, deny_transfer, tell_place, folder_contents,
  tell_user_info,
}

-- What the receiver makes of a message. Of our user information it takes the first number, which
-- `build_user_info` fills with the upload slots, as the total of uploads.
abbrev pub meaning : Request → PeerMessage
meaning get_share_file_list = share_list_requested
meaning user_info_request = user_info_requested
meaning (ask_for_upload filename) = incoming_queue_upload filename
meaning (place_in_queue_request filename) = incoming_place_in_queue_request filename
meaning (ask_for_transfer filename token) =
    transfer_request (record { direction = 0; token = token; filename = filename; size = 0 })
meaning (offer_upload filename token size) =
    transfer_request (record { direction = 1; token = token; filename = filename; size = size })
meaning (allow_transfer token) = transfer_response token true none
meaning (deny_transfer token reason) = transfer_response token false (some reason)
meaning (tell_place filename place) = place_in_queue_response filename place
meaning (folder_contents token folder) = folder_contents_requested token folder
meaning (tell_user_info upload_slots queue_size slots_free) = user_info_received (record {
  description = [];
  picture_bytes = none;
  total_uploads = upload_slots;
  queue_size = queue_size;
  slots_free = slots_free;
  upload_allowed = none;
})

-- The texts and numbers fit the fields that carry them.
abbrev pub RequestFits : Request → Type 0
RequestFits get_share_file_list = Unit
RequestFits user_info_request = Unit
RequestFits (ask_for_upload filename) = IsText filename
RequestFits (place_in_queue_request filename) = IsText filename
RequestFits (ask_for_transfer filename token) = IsText filename × (token < 2 ^ 32)
RequestFits (offer_upload filename token size) =
    IsText filename × (token < 2 ^ 32) × (size < 2 ^ 64)
RequestFits (allow_transfer token) = token < 2 ^ 32
RequestFits (deny_transfer token reason) = IsText reason × (token < 2 ^ 32)
RequestFits (tell_place filename place) = IsText filename × (place < 2 ^ 32)
RequestFits (folder_contents token folder) = IsText folder × (token < 2 ^ 32)
RequestFits (tell_user_info upload_slots queue_size slots_free) =
    (upload_slots < 2 ^ 32) × (queue_size < 2 ^ 32)

-- The frame that carries a message.
abbrev pub sent : Message → Message
sent m = new_with_data (get_buffer m)

-- Length and code, in front of the rest of the frame.
abbrev front : ℕ → List ℕ → List ℕ
front code body = le_bytes 4 (length (le_bytes 4 code ++ body) % 2 ^ 32) ++ le_bytes 4 code
