-- ===== src/Ns.antt =====
-- src/channel/ns.rs: the constants of the Cast protocol.
use oxicast.Common.{ℕ, String}

abbrev pub ns_connection : String
ns_connection = "urn:x-cast:com.google.cast.tp.connection"

abbrev pub ns_heartbeat : String
ns_heartbeat = "urn:x-cast:com.google.cast.tp.heartbeat"

abbrev pub ns_receiver : String
ns_receiver = "urn:x-cast:com.google.cast.receiver"

abbrev pub ns_media : String
ns_media = "urn:x-cast:com.google.cast.media"

abbrev pub sender_id : String
sender_id = "sender-0"

abbrev pub receiver_id : String
receiver_id = "receiver-0"

abbrev pub msg_connect : String
msg_connect = "CONNECT"

abbrev pub msg_close : String
msg_close = "CLOSE"

abbrev pub msg_ping : String
msg_ping = "PING"

abbrev pub msg_pong : String
msg_pong = "PONG"

abbrev pub msg_launch : String
msg_launch = "LAUNCH"

abbrev pub msg_stop : String
msg_stop = "STOP"

abbrev pub msg_get_status : String
msg_get_status = "GET_STATUS"

abbrev pub msg_set_volume : String
msg_set_volume = "SET_VOLUME"

abbrev pub msg_receiver_status : String
msg_receiver_status = "RECEIVER_STATUS"

abbrev pub msg_load : String
msg_load = "LOAD"

abbrev pub msg_play : String
msg_play = "PLAY"

abbrev pub msg_pause : String
msg_pause = "PAUSE"

abbrev pub msg_seek : String
msg_seek = "SEEK"

abbrev pub msg_media_stop : String
msg_media_stop = "STOP"

abbrev pub msg_media_status : String
msg_media_status = "MEDIA_STATUS"

abbrev pub msg_load_failed : String
msg_load_failed = "LOAD_FAILED"

abbrev pub msg_load_cancelled : String
msg_load_cancelled = "LOAD_CANCELLED"

abbrev pub msg_invalid_request : String
msg_invalid_request = "INVALID_REQUEST"

abbrev pub msg_queue_load : String
msg_queue_load = "QUEUE_LOAD"

abbrev pub msg_queue_insert : String
msg_queue_insert = "QUEUE_INSERT"

abbrev pub app_default_media_receiver : String
app_default_media_receiver = "CC1AD845"

abbrev pub app_backdrop : String
app_backdrop = "E8C28D3C"

abbrev pub app_youtube : String
app_youtube = "233637DE"

abbrev pub metadata_generic : ℕ
metadata_generic = 0

abbrev pub metadata_movie : ℕ
metadata_movie = 1

abbrev pub metadata_tv_show : ℕ
metadata_tv_show = 2

abbrev pub metadata_music_track : ℕ
metadata_music_track = 3

abbrev pub metadata_photo : ℕ
metadata_photo = 4

abbrev pub metadata_audiobook_chapter : ℕ
metadata_audiobook_chapter = 5

abbrev pub user_agent : String
user_agent = "oxicast"
