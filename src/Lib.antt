-- ===== src/Lib.antt =====
-- AusweisApp2 is the client of the German eID: it finds a card reader, opens a PACE channel to the
-- identity card with the PIN, the CAN or the PUK that the user enters, and lets a server read the
-- card. This library models the core of the client below src/ that decides without the operating
-- system: how results are classified, how commands to a card and messages to a Bluetooth reader
-- are laid out, and the state machine that establishes the PACE channel.
--
-- Parts and files. Base holds the Boolean tests on native numbers and the lists of bytes.
--
-- Status: the codes of src/global/GlobalStatus.h and the results of card commands of
-- src/global/CardReturnCode.cpp (toGlobalStatus, equalsWrongPacePassword). ECardApi: the
-- conversion maps of src/global/ECardApiResult.cpp; Maps builds them by the insertions of
-- initConversionMaps, Conversion compares them with the plain list, Laws judges the list.
--
-- Card: CommandApdu and ResponseApdu are src/card/base/CommandApdu.cpp and ResponseApdu.cpp. An
-- APDU is its buffer, a list of bytes; each accessor is a function of the buffer. ChainBuilder is
-- src/card/base/asn1/ChainBuilder.h, over any type of elements. Certificates is the validity of a
-- chain of certificates (src/card/base/asn1/CVCertificateChain.cpp), the removal of invalid chains
-- and the selection (CVCertificateChainBuilder.cpp); Certificates/Builder joins it with
-- ChainBuilder. A certificate is a record of what the code reads of it. AccessRight and Chat are
-- src/card/base/asn1/AccessRoleAndRight.cpp and Chat.cpp: a CHAT is the bytes of its template.
--
-- Card/Builders is the commands that SelectBuilder, ReadBinaryBuilder, ResetRetryCounterBuilder
-- and MSEBuilder of src/card/base make; Connection is src/card/base/CardConnectionWorker.cpp,
-- RetryCounter below it the retry counter of src/card/base/Reader.cpp: a Worker has the card, the
-- secure channel and what is known of the reader, and each operation gives the changed worker with
-- its result. The card, the cipher of the channel and PACE itself are a Device, a record of
-- functions that the operations take. Commands is UnblockPinCommand and TransmitCommand over it,
-- Eac is DidAuthenticateEAC1Command and DidAuthenticateEAC2Command below src/card/base/command
-- with their builders, and Detection is src/card/base/CardInfo.cpp. The decoders of EF.CardAccess,
-- of EF.CardSecurity and of certificates are arguments.
--
-- Bluetooth: Message and Parser are the messages below src/card/bluetooth/messages (toData,
-- BluetoothMessageParser), Exchange is src/card/bluetooth/SynchronousBtCall.cpp, which parses its
-- buffer anew with each chunk, and BluetoothCard is src/card/bluetooth/BluetoothCard.cpp (connect,
-- disconnect, transmit). The reader is a parameter: a function from the data of a request to the
-- chunks that come back before the timeout. Whether `char` is signed is a parameter as well, since
-- the code depends on it.
--
-- Pace: Context is the part of src/core/context/WorkflowContext.cpp that the channel needs, with
-- the flags of src/card/base/CardConnection.h. States, Establish and Reader are the states below
-- src/core/states; `run_` functions are their `run`, and the functions named like slots are the
-- slots. Each returns the changed context and the signal that it emits. Machine and Events join
-- them as CompositeStatePace.cpp does: a machine has the name of a state, the context and the
-- readers; an event is what reaches it from outside (an approval, a cancellation, the death of the
-- workflow, a command's result, a reader, a password), and `step` runs the slot that is connected,
-- follows the transition and withdraws the approval, as AbstractState.cpp does. Invariant has what
-- is common to the invariants of this machine, Passwords, Faults and Killed use it, Channel is
-- about single states.
--
-- Workflow/ChangePin is src/core/controller/ChangePinController.cpp: its states and transitions,
-- with a PACE machine inside, which it starts anew each time it enters the composite state. Both
-- have one context; `new_pin` there is the field of ChangePinContext. An event is one of the PACE
-- machine, a new PIN, or the result of the command that sets it.
--
-- Workflow/TrustedChannel is src/core/states/CompositeStateTrustedChannel.cpp, its states and
-- transitions, with those of CompositeStateProcessCvcsAndSetRights.cpp in their place. Receive is
-- what StateGenericSendReceive.cpp does with an answer of the server, Report what it tells the
-- server of errors, Extract is StateExtractCvcsFromEac1InputType.cpp. The composite state of PACE
-- is one state there. Run puts them together over the machine of Pace: which messages there are,
-- the machine of PACE with its context, and the state. The work of the other states is there an
-- event with the signal that they end with.
--
-- Workflow/Rights is what src/core/context/AuthContext.cpp does with access rights:
-- removeForbiddenAccessRights, initializeChat, the calls of the user interface on the effective
-- rights, and encodeEffectiveChat, which is operations of Card/Chat. A QSet is a list that is only
-- asked by its elements; Sets has its laws, Limited the invariant, Granted what may be sent.
--
-- The components meet in the results: BluetoothCard gives a card command's result, ResponseApdu
-- reads its status word, CardReturnCode is what the PACE states branch on, and ECardApi is what
-- the workflow tells the server about the status that is left.
--
-- Card/SecureMessaging is src/card/base/pace/SecureMessaging.cpp: `encrypt` and `decrypt` with the
-- send sequence counter as the state; Response is SecureMessagingResponse.cpp and the checks of
-- `decrypt`. The cipher, the MAC and the coding of DER octet strings are the fields of a `Cipher`,
-- and `IsSound` is what OpenSSL documents of them. Sealed and Opened have the card's side, written
-- after TR-03110-3: how a response is sealed and a command opened.
--
-- Bounds. The depth of buildChain is bounded by the elements of the pool that are not in the
-- chain; the fuel is their number and one. Bytes are natural numbers below 256 by their use; sizes
-- and expected lengths are natural numbers, so that the negative ints that no caller passes have
-- no counterpart. The loop of readFile has rounds as fuel, and gives no result when they are used
-- up, since the code goes on for ever with a card that answers so; 129 rounds are enough for every
-- file that can be read. The loop of the message parser has the length of its input as fuel; each
-- round takes four bytes at least. A killed workflow approves the states that it enters by itself,
-- at most `rounds` (8) in a row: no chain of states that follow one another with an error status
-- is longer.
--
-- Not modelled: the cryptography of PACE, the ciphers of secure messaging, the commands on the
-- card within the PACE machine (their results are events there), signals that only inform the user
-- interface, texts and logging, Qt's event loop beyond the order of events, the note that a PACE
-- command leaves on its connection when its state has been left before, the XML of PAOS, the
-- content of its messages, network, settings, remote devices and the user interface.
pub mod Base
pub mod Status
pub mod ECardApi
pub mod Card
pub mod Bluetooth
pub mod Pace
pub mod Workflow
pub mod Tests
