-- ===== src/Lib.antt =====
-- The firmware of a water meter with two pulse inputs on an ESP8266 (user/, include/).
--
-- Its parts, and how they work together. Two reed contacts are sampled every 50 ms and debounced
-- (user/user_main.c: debounce, buttonTimer_cb); a rising edge adds one to the counter of hot or
-- cold water. Every 250 ms the main timer (mainTimer_cb) moves the counters into the readings of
-- the configuration, and publishes them by MQTT, or saves the configuration where nobody takes the
-- message. The configuration (user/wm_config.c) is kept on the SD card, or in a sector of the flash
-- with its checksum. Messages of the broker set or raise the readings (user/wm_mqtt.c). The WiFi
-- (user/wm_wifi.c) is an access point, a station, or both while it looks for its network. Without
-- external power the device sleeps, and a pulse wakes it up. The pages (user/wm_web.c) show the
-- readings, change the settings and take a new firmware in pieces; the SD card is driven over SPI
-- (user/sdcard.c).
--
-- Files. Base passes the shared names on; its children are tests, lists, words of fixed width,
-- bits, bytes of a struct, and the C strings (strcpy, sprintf, strstr, strtoul). Config is
-- include/wm_config.h and user/wm_config.c: Config the struct and its setters, Config/Layout its
-- bytes, Config/Crc the checksum, Config/Flash and Config/Storage the two media, Config/Valid,
-- Config/Settle, Config/Persist and Config/Refuse what holds of them. Device is the state that the
-- callbacks share, with the calls that leave the firmware as a trace. Counter is debounce and
-- buttonTimer_cb; Main is mainTimer_cb, Main/System its interleaving with the button timer,
-- Main/Saved and Main/Offline what they leave on the medium; Utils is user/wm_utils.c; Mqtt is
-- user/wm_mqtt.c, Mqtt/Topics the search in its topics; Wifi is user/wm_wifi.c, with its calls as
-- Wifi/Modes.radio; Power is sleepTimer_cb and sleepTimerOn; Clock is user/Get_Time.c. Web is
-- user/wm_web.c: Web/Form the loop over the arguments, Web/Apply what a form changes, Web/Compare
-- which forms are saved, Web/Access the login, Web/Template what a page shows, Web/Upload the loop
-- that writes a firmware to the flash and Web/Upload/Handler the handler around it; SdCard is
-- user/sdcard.c: SdCard the commands on the bus, SdCard/Media the access to the sectors,
-- SdCard/Init the start of the card. Start is user_init and setup_cb, Start/Trace what the storage
-- calls of a trace do to the media, and Start/Restart a start after a power cut. Examples runs the
-- functions on concrete inputs.
--
-- How the code is written down. A function of the C code is a function of the same name in lower
-- case with underscores, from the state before to the state after. What a call of the SDK answers
-- (a time, a pin, whether a block was allocated) is an argument. An overrun of a buffer is none.
-- Words wrap around where the code computes in 8, 16 or 32 bits. A call that only leaves the
-- firmware (timers, MQTT, WiFi, the display) is an action of the trace, newest first. Logging,
-- delays and freeing of memory are left out.
--
-- Parameters. The SPI flash (SpiFlash, with ReadsBack: an erased sector that was written with
-- success reads back; LeavesInitData: a write of one sector leaves another; FlashKeeps: every write
-- succeeds) and the FAT library in fat/ (FatLibrary, with FatReadsBack, CardKeeps and Removes) are
-- records of their calls; the bus of the SD card with the card behind it is the record SpiBus, with
-- ReadsBlocks and WritesBlocks for a card that serves and takes blocks; the MQTT client, the HTTP
-- server and the SDK are not modelled.
--
-- Fuel. get_year counts at most 150 years, and 32 bits of seconds are less than 137; decimal prints
-- at most ten digits, which every word of 32 bits has. The loop of the upload has three rounds for
-- each byte of a piece and three more: a round that takes no byte is followed by one that empties
-- the page. waitNotBusy reads as many bytes as its fuel says.
--
-- Not modelled: the libraries in fat/, libesphttpd/, mqtt/ and driver/, and the driver of the
-- display (user/ssd1306.c), which are copies of other projects; in user/wm_utils.c localTimeStr and
-- startApMsg, which only hand values on; the debugging output.
pub mod Base
pub mod Config
pub mod Device
pub mod Counter
pub mod Utils
pub mod Main
pub mod Mqtt
pub mod Clock
pub mod Power
pub mod Wifi
pub mod Web
pub mod SdCard
pub mod Start
pub mod Examples
