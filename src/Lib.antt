-- ===== src/Lib.antt =====
-- Verification of the web panel of SCUM NeDjin, src/ScumWarden.Server/wwwroot/app.js (the copy
-- ue4ss/ScumNeDjin/web/app.js is the same file).
--
-- Shared modules. Prelude passes on the library's names and adds lists over the native numbers.
-- Text gives JavaScript strings as lists of UTF-16 code units with the methods that the panel
-- calls; Text/Lines splits and joins, Text/Utf8 counts bytes as `TextEncoder` does, Text/Fresh
-- keeps the first entry of each key. Js/Sorting is the stable sort, newest first; Js/Regex runs
-- regular expressions with backtracking, where a star takes at most as many rounds as units are
-- left, since a round that matches nothing ends it. Js gives the values that JSON holds, with
-- `undefined`: Js/Numbers exact decimals, Js/Objects properties, Js/Convert the conversions
-- `Boolean`, `String` and `Number` and the chains of `||`.
--
-- Parts of the panel:
-- * ServerConfig models the editor of the game server's configuration files
--   (`refreshServerConfigs`, `loadServerConfig`, `saveServerConfig`,
--   `updateServerConfigSaveState`): a panel record, the requests under way, and a step
--   function over events, so that replies come in any order.
-- * Json models `findJsonObjectEnd` and `salvageJsonObjects`, which recover rows from a
--   reply that breaks off, and `JSON.stringify`; `JSON.parse` is a parameter.
-- * Nested models `getNestedValue` and `setNestedValue`, which read and write
--   configurations by dotted paths.
-- * ChatLines models the editor of the texts of /help and /info (`normalizeChatLines`,
--   `chatLineEditorLimits`, `chatLineEditorIssues`, `validateChatResponseDraft`,
--   `appendChatLinesForEditor`, `handleChatLinesEditorClick`), on drafts that Nested reads
--   and writes.
-- * Players models which players are shown and which player an action names
--   (`normalizePlayerForDisplay`, `setSelectedPlayerTarget`, `modalTargetBody`,
--   `serviceTargetPlayer`, `valueFromKeys`).
-- * Welcome models the rows of received welcome packs, those of the server and those that
--   the panel adds until the server has them; `localeCompare` is a parameter.
-- * Aliases models the normal form of command aliases (`normalizeCommandAliasToken`,
--   `normalizeCommandAliasList`).
-- * ModuleEditor models the editor of the lists in a module's configuration
--   (`simpleModuleArrayKey` to `simpleModuleTabArrayKey`, `beginSimpleModuleCreate`,
--   `commitSimpleModuleItemDraft`), whose default rows come from Modules/Items.
-- * Modules models the list of modules (`ensurePanelModules`, `defaultArrayItem`,
--   `moduleIsEnabled`, `moduleConfigWarning`).
-- * FastTravel models the routes of the fast travel module before a save
--   (`normalizeFastTravelConfigForSave`).
-- * Scheduler models the scheduled events module before a save
--   (`normalizeSchedulerConfigForSave`, `schedulerMode`).
-- * Shop models the rules of the shop modules (`wargmRuleMode`,
--   `normalizeWargmConfigForSave`).
-- * ModuleSave models the save of a module (`saveSelectedModule`) with its check against
--   the loaded configuration; it calls the normalisers of Aliases, FastTravel, Scheduler
--   and Shop and the check of ChatLines.
-- * Chat models the messages that are sent to the game's chat (`scumChatSafeMessage`) and
--   the channels of events (`normalizeChatChannel`).
-- * Rewards models the items of a battle pass reward as text (`parseBattlepassItemsText`,
--   `formatBattlepassItemsText`).
-- * Envelope models replies in their envelopes (`parseMaybeJson`, `unwrapApiEnvelope`,
--   `arrayFromPayload`, `unwrapCatalogData`); `JSON.parse` is a parameter, and the search
--   for rows runs on fuel above the size of the reply.
-- * Inventory models the deletion of items in batches of six, the button that clears an
--   inventory and the command that adds an item (`uniqueInventoryEntityIds`,
--   `destroyInventoryEntitiesFast`, `addItemToInventory`); the server is a parameter.
-- * Delivery models the delivery form (`validateWargmRequest`, `addWargmItemFromInputs` and
--   the button that delivers).
-- * Mojibake models the repair of texts that were read in the wrong code page
--   (`mojibakeScore`, `repairMojibakeText`); the decoder of UTF-8 is a parameter.
-- * ChatFeed models the list of the chat window (`eventTime`, `chatDedupeKey`,
--   `dedupeChatMessages`, `renderChat`), on the channels of Chat and the repair of
--   Mojibake, and the fetching of its extra channels (`refreshChatAuxChannel`).
-- * Results models the text that a reply is shown as (`formatPanelResult`,
--   `summarizeQueuedResult`), on the envelopes of Envelope.
-- * KillFeed models the kill feed from the log lines to the list that is shown
--   (`parseScumKillLogText`, `hydrateKillEvent`, `collectKillKnownNames`,
--   `repairKillEventParticipants`, `mergeKillEvents`, `killEventsLikelyDuplicate`,
--   `normalizeKillEvents`); its regular expressions are run by Js/Regex.
--
-- Bounds. `toLowerCase` is given on ASCII, Latin-1 and Cyrillic letters; a number is an exact
-- decimal, without the rounding of 64-bit floats; members that objects inherit count as
-- missing; the loops of the source are recursions on the list or text that they walk, or on
-- fuel that is the length of the text. The elements of the page that index.html declares are
-- taken to be there. A text that is put into a textarea is taken to stay as it is, where a
-- browser turns CRLF into LF. A kill that comes as an array counts as one without properties.
--
-- Not modelled: drawing (the render functions, icons, translations, the map), the requests
-- themselves (`fetch`, whose replies are arguments or events here), the browser's clipboard and
-- dialogs, and the C#, C++ and Lua programs at the other end.
pub mod Prelude
pub mod Text
pub mod Js
pub mod ServerConfig
pub mod Json
pub mod Nested
pub mod ChatLines
pub mod Players
pub mod Welcome
pub mod Aliases
pub mod ModuleEditor
pub mod Modules
pub mod FastTravel
pub mod Scheduler
pub mod Shop
pub mod ModuleSave
pub mod Chat
pub mod Rewards
pub mod Envelope
pub mod Inventory
pub mod Delivery
pub mod Mojibake
pub mod ChatFeed
pub mod Results
pub mod KillFeed
